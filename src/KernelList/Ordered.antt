-- ===== src/KernelList/Ordered.antt =====
-- The operations of lib/kernel/list.c on lists with an order: `less` is the function that the caller hands
-- over, with its `aux`; it is not NULL.
use eda.Prelude.{
  ℕ, zero, suc, ◌&&◌, Bool, not, ◌==◌, if◌then◌else◌, Result, ok, fault, ◌>>=◌, ◌>>◌, assert,
}
use eda.KernelList.{
  Links, is_null, list_begin, list_end, list_next, list_insert, list_remove, list_push_back,
  list_empty,
}

abbrev pub Less : Type 0
Less = ℕ → ℕ → Bool

-- The loop of `list_insert_ordered`: where the new element `elem` is to stand
unfoldable pub find_place : ℕ → Links → Less → ℕ → ℕ → ℕ → Result ℕ
find_place zero l less stop elem e = fault
find_place (suc fuel) l less stop elem e =
    let more = list_next l e >>= λ n. find_place fuel l less stop elem n in
    if e == stop then ok e else if less elem e then ok e else more

unfoldable pub list_insert_ordered : ℕ → Links → Less → ℕ → ℕ → Result Links
list_insert_ordered fuel l less list elem =
    assert (not (is_null list))
    >> (assert (not (is_null elem))
        >> (list_begin l list >>= λ b. list_end list >>= λ stop.
            find_place fuel l less stop elem b >>= λ e. list_insert l e elem))

-- `if (duplicates != NULL) list_push_back (duplicates, next);`
abbrev pub keep_duplicate : Links → ℕ → ℕ → Result Links
keep_duplicate l duplicates next =
    if is_null duplicates then ok l else list_push_back l duplicates next

abbrev pub same : Less → ℕ → ℕ → Bool
same less a b = not (less a b) && not (less b a)

-- The loop of `list_unique`
unfoldable pub unique_loop : ℕ → Links → Less → ℕ → ℕ → ℕ → Result Links
unique_loop zero l less list duplicates elem = fault
unique_loop (suc fuel) l less list duplicates elem = list_next l elem >>= λ next.
    let drop_next = list_remove l next >>= λ r.
    keep_duplicate r.1 duplicates next >>= λ m. unique_loop fuel m less list duplicates elem in
    let more = unique_loop fuel l less list duplicates next in
    list_end list >>= λ stop.
    if next == stop then ok l else if same less elem next then drop_next else more

unfoldable pub list_unique : ℕ → Links → Less → ℕ → ℕ → Result Links
list_unique fuel l less list duplicates =
    let go = list_begin l list >>= λ elem. unique_loop fuel l less list duplicates elem in
    assert (not (is_null list)) >> (list_empty l list >>= λ b. if b then ok l else go)

-- The loops of `list_max` and `list_min`, from the element `e` on
unfoldable pub max_loop : ℕ → Links → Less → ℕ → ℕ → ℕ → Result ℕ
max_loop zero l less stop best e = fault
max_loop (suc fuel) l less stop best e =
    let best1 = if less best e then e else best in
    let more = list_next l e >>= λ n. max_loop fuel l less stop best1 n in
    if e == stop then ok best else more

unfoldable pub min_loop : ℕ → Links → Less → ℕ → ℕ → ℕ → Result ℕ
min_loop zero l less stop best e = fault
min_loop (suc fuel) l less stop best e =
    let best1 = if less e best then e else best in
    let more = list_next l e >>= λ n. min_loop fuel l less stop best1 n in
    if e == stop then ok best else more

unfoldable pub list_max : ℕ → Links → Less → ℕ → Result ℕ
list_max fuel l less list = list_begin l list >>= λ best. list_end list >>= λ stop.
    let more = list_next l best >>= λ e. max_loop fuel l less stop best e in
    if best == stop then ok best else more

unfoldable pub list_min : ℕ → Links → Less → ℕ → Result ℕ
list_min fuel l less list = list_begin l list >>= λ best. list_end list >>= λ stop.
    let more = list_next l best >>= λ e. min_loop fuel l less stop best e in
    if best == stop then ok best else more
