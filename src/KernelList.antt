-- ===== src/KernelList.antt =====
-- lib/kernel/list.c: doubly linked lists. The memory is, for each address of a `struct list_elem`, its two
-- pointers; NULL is 0. A `struct list` stands at its address: its head is there, its tail 8 bytes
-- further on. An access through NULL is a `fault`, as is a loop without fuel. `less` is the function
-- that the caller hands over, with its `aux`.
pub mod Linked
pub mod State
pub mod Insert
pub mod Remove
pub mod Ends
pub mod Deque
pub mod Size
pub mod Reverse
pub mod Ordered
pub mod Sorted
pub mod Extremes
pub mod Unique
pub mod Sort
pub mod Merge
pub mod Runs
pub mod Passes
pub mod Sorting
use eda.Prelude.{
  ℕ, zero, suc, ◌+◌, ◌%◌, ◌^◌, ◌&&◌, ◌||◌, Bool, true, false, not, Option, none, some, ◌==◌,
  if◌then◌else◌, Result, ok, panic, fault, ◌>>=◌, ◌>>◌, assert,
}
use eda.Prelude.Members.{update}

-- The `prev` and `next` of every `struct list_elem`
pub record Links : Type 0 where
  pub prev : ℕ → ℕ
  pub next : ℕ → ℕ

-- `p->prev = q` and `p->next = q`
abbrev pub set_prev : Links → ℕ → ℕ → Links
set_prev l p q = record l { prev = update l.prev p q }

abbrev pub set_next : Links → ℕ → ℕ → Links
set_next l p q = record l { next = update l.next p q }

abbrev pub is_null : ℕ → Bool
is_null p = p == 0

unfoldable pub is_head : Links → ℕ → Bool
is_head l e = not (is_null e) && (is_null (l.prev e) && not (is_null (l.next e)))

unfoldable pub is_interior : Links → ℕ → Bool
is_interior l e = not (is_null e) && (not (is_null (l.prev e)) && not (is_null (l.next e)))

unfoldable pub is_tail : Links → ℕ → Bool
is_tail l e = not (is_null e) && (not (is_null (l.prev e)) && is_null (l.next e))

-- `&list->tail`
abbrev pub tail_of : ℕ → ℕ
tail_of list = list + 8

-- The four assignments of `list_init`
abbrev pub init_links : Links → ℕ → Links
init_links l list =
    let a = set_next (set_prev l list 0) list (tail_of list) in
    set_next (set_prev a (tail_of list) list) (tail_of list) 0

unfoldable pub list_init : Links → ℕ → Result Links
list_init l list = assert (not (is_null list)) >> ok (init_links l list)

abbrev pub list_begin : Links → ℕ → Result ℕ
list_begin l list = assert (not (is_null list)) >> ok (l.next list)

unfoldable pub list_next : Links → ℕ → Result ℕ
list_next l e = assert (is_head l e || is_interior l e) >> ok (l.next e)

abbrev pub list_end : ℕ → Result ℕ
list_end list = assert (not (is_null list)) >> ok (tail_of list)

abbrev pub list_rbegin : Links → ℕ → Result ℕ
list_rbegin l list = assert (not (is_null list)) >> ok (l.prev (tail_of list))

unfoldable pub list_prev : Links → ℕ → Result ℕ
list_prev l e = assert (is_interior l e || is_tail l e) >> ok (l.prev e)

abbrev pub list_rend : ℕ → Result ℕ
list_rend list = assert (not (is_null list)) >> ok list

abbrev pub list_head : ℕ → Result ℕ
list_head list = assert (not (is_null list)) >> ok list

abbrev pub list_tail : ℕ → Result ℕ
list_tail list = assert (not (is_null list)) >> ok (tail_of list)

-- The four assignments of `list_insert`
abbrev pub insert : Links → ℕ → ℕ → Links
insert l before e =
    let a = set_prev l e (l.prev before) in
    let b = set_next a e before in let c = set_next b (b.prev before) e in set_prev c before e

unfoldable pub list_insert : Links → ℕ → ℕ → Result Links
list_insert l before e =
    assert (is_interior l before || is_tail l before)
    >> (assert (not (is_null e)) >> ok (insert l before e))

-- The assignments of `list_splice`
abbrev pub splice : Links → ℕ → ℕ → ℕ → Links
splice l before first last =
    let a = set_next l (l.prev first) (l.next last) in
    let b = set_prev a (a.next last) (a.prev first) in
    let c = set_prev b first (b.prev before) in
    let d = set_next c last before in
    let e = set_next d (d.prev before) first in set_prev e before last

unfoldable pub list_splice : Links → ℕ → ℕ → ℕ → Result Links
list_splice l before first end =
    let moved = list_prev l end >>= λ last.
    assert (is_interior l first)
    >> (assert (is_interior l last) >> ok (splice l before first last)) in
    assert (is_interior l before || is_tail l before) >> (if first == end then ok l else moved)

unfoldable pub list_push_front : Links → ℕ → ℕ → Result Links
list_push_front l list e = list_begin l list >>= λ b. list_insert l b e

unfoldable pub list_push_back : Links → ℕ → ℕ → Result Links
list_push_back l list e = list_end list >>= λ b. list_insert l b e

-- The two assignments of `list_remove`
abbrev pub unlink : Links → ℕ → Links
unlink l e = let a = set_next l (l.prev e) (l.next e) in set_prev a (a.next e) (a.prev e)

unfoldable pub list_remove : Links → ℕ → Result (ℕ × Links)
list_remove l e = assert (is_interior l e) >> ok ((unlink l e).next e, unlink l e)

unfoldable pub list_empty : Links → ℕ → Result Bool
list_empty l list = list_begin l list >>= λ b. list_end list >>= λ e. ok (b == e)

unfoldable pub list_front : Links → ℕ → Result ℕ
list_front l list = list_empty l list >>= λ b. assert (not b) >> ok (l.next list)

unfoldable pub list_back : Links → ℕ → Result ℕ
list_back l list = list_empty l list >>= λ b. assert (not b) >> ok (l.prev (tail_of list))

unfoldable pub list_pop_front : Links → ℕ → Result (ℕ × Links)
list_pop_front l list = list_front l list >>= λ e. list_remove l e >>= λ r. ok (e, r.1)

unfoldable pub list_pop_back : Links → ℕ → Result (ℕ × Links)
list_pop_back l list = list_back l list >>= λ e. list_remove l e >>= λ r. ok (e, r.1)

-- The loop of `list_size`
unfoldable pub size_loop : ℕ → Links → ℕ → ℕ → ℕ → Result ℕ
size_loop zero l stop e cnt = fault
size_loop (suc fuel) l stop e cnt =
    let more = list_next l e >>= λ n. size_loop fuel l stop n ((cnt + 1) % 2 ^ 32) in
    if e == stop then ok cnt else more

unfoldable pub list_size : ℕ → Links → ℕ → Result ℕ
list_size fuel l list =
    list_begin l list >>= λ e. list_end list >>= λ stop. size_loop fuel l stop e 0

-- `swap (&e->prev, &e->next)`
abbrev pub swap_links : Links → ℕ → Links
swap_links l e = set_next (set_prev l e (l.next e)) e (l.prev e)

unfoldable pub reverse_loop : ℕ → Links → ℕ → ℕ → Result Links
reverse_loop zero l stop e = fault
reverse_loop (suc fuel) l stop e =
    let m = swap_links l e in
    let more = if is_null e then fault else reverse_loop fuel m stop (m.prev e) in
    if e == stop then ok l else more

-- `swap (&list->head.next, &list->tail.prev)` and `swap (&list->head.next->prev, &list->tail.prev->next)`
abbrev pub swap_ends : Links → ℕ → Links
swap_ends l list = set_prev (set_next l list (l.prev (tail_of list))) (tail_of list) (l.next list)

abbrev pub swap_inner : Links → ℕ → ℕ → Links
swap_inner l first last = set_next (set_prev l first (l.next last)) last (l.prev first)

abbrev pub finish_reverse : Links → ℕ → Result Links
finish_reverse l list =
    let m = swap_ends l list in
    if is_null (m.next list) || is_null (m.prev (tail_of list))
    then fault
    else ok (swap_inner m (m.next list) (m.prev (tail_of list)))

unfoldable pub list_reverse : ℕ → Links → ℕ → Result Links
list_reverse fuel l list =
    let reversed = list_begin l list >>= λ e.
    list_end list >>= λ stop. reverse_loop fuel l stop e >>= λ m. finish_reverse m list in
    list_empty l list >>= λ b. if b then ok l else reversed
