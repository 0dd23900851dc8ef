-- ===== src/KernelList/Sort.antt =====
-- The sort of lib/kernel/list.c: a natural merge sort in place. A loop without fuel is a `fault`.
use eda.Prelude.{
  ℕ, zero, suc, ◌+◌, ◌%◌, ◌^◌, ◌&&◌, Bool, true, false, not, ◌==◌, ltb, if◌then◌else◌, Result, ok,
  fault, ◌>>=◌, ◌>>◌, assert,
}
use eda.KernelList.{Links, is_null, list_begin, list_end, list_next, list_prev, list_splice}
use eda.KernelList.Ordered.{Less}

-- The loop of `is_sorted`
unfoldable pub sorted_loop : ℕ → Links → Less → ℕ → ℕ → Result Bool
sorted_loop zero l less a b = fault
sorted_loop (suc fuel) l less a b = list_next l a >>= λ n.
    let more = list_prev l n >>= λ p.
    let rest = sorted_loop fuel l less n b in if less n p then ok false else rest in
    if n == b then ok true else more

unfoldable pub is_sorted : ℕ → Links → Less → ℕ → ℕ → Result Bool
is_sorted fuel l less a b =
    let sorted = sorted_loop fuel l less a b in if a == b then ok true else sorted

unfoldable pub end_of_run_loop : ℕ → Links → Less → ℕ → ℕ → Result ℕ
end_of_run_loop zero l less a b = fault
end_of_run_loop (suc fuel) l less a b = list_next l a >>= λ n.
    let more = list_prev l n >>= λ p.
    let rest = end_of_run_loop fuel l less n b in if less n p then ok n else rest in
    if n == b then ok n else more

unfoldable pub find_end_of_run : ℕ → Links → Less → ℕ → ℕ → Result ℕ
find_end_of_run fuel l less a b =
    assert (not (is_null a))
    >> (assert (not (is_null b)) >> (assert (not (a == b)) >> end_of_run_loop fuel l less a b))

-- The loop of `inplace_merge`
unfoldable pub merge_loop : ℕ → Links → Less → ℕ → ℕ → ℕ → Result Links
merge_loop zero l less a0 a1b0 b1 = fault
merge_loop (suc fuel) l less a0 a1b0 b1 =
    let step = list_next l a0 >>= λ n. merge_loop fuel l less n a1b0 b1 in
    let take_b = list_next l a1b0 >>= λ n.
    list_prev l n >>= λ p. list_splice l a0 p n >>= λ m. merge_loop fuel m less a0 n b1 in
    if not (a0 == a1b0) && not (a1b0 == b1)
    then (if not (less a1b0 a0) then step else take_b)
    else ok l

unfoldable pub inplace_merge : ℕ → Links → Less → ℕ → ℕ → ℕ → Result Links
inplace_merge fuel l less a0 a1b0 b1 =
    assert (not (is_null a0))
    >> (assert (not (is_null a1b0))
        >> (assert (not (is_null b1))
            >> (is_sorted fuel l less a0 a1b0 >>= λ first_sorted.
                assert first_sorted
                >> (is_sorted fuel l less a1b0 b1 >>= λ second_sorted.
                    assert second_sorted >> merge_loop fuel l less a0 a1b0 b1))))

-- One pass over the list from `a0` on, with the runs that it puts out
unfoldable pub sort_pass : ℕ → ℕ → Links → Less → ℕ → ℕ → ℕ → Result (ℕ × Links)
sort_pass zero fuel l less stop a0 cnt = fault
sort_pass (suc turns) fuel l less stop a0 cnt =
    let cnt1 = (cnt + 1) % 2 ^ 32 in
    let turn = find_end_of_run fuel l less a0 stop >>= λ a1b0.
    let more = find_end_of_run fuel l less a1b0 stop >>= λ b1.
    inplace_merge fuel l less a0 a1b0 b1 >>= λ m. sort_pass turns fuel m less stop b1 cnt1 in
    if a1b0 == stop then ok (cnt1, l) else more in
    if a0 == stop then ok (cnt, l) else turn

-- The passes of `list_sort`
unfoldable pub sort_loop : ℕ → ℕ → Links → Less → ℕ → Result Links
sort_loop zero fuel l less list = fault
sort_loop (suc passes) fuel l less list = list_begin l list >>= λ a0. list_end list >>= λ stop.
    sort_pass fuel fuel l less stop a0 0 >>= λ r.
    let more = sort_loop passes fuel r.1 less list in if ltb 1 r.0 then more else ok r.1

unfoldable pub list_sort : ℕ → Links → Less → ℕ → Result Links
list_sort fuel l less list =
    assert (not (is_null list))
    >> (sort_loop fuel fuel l less list >>= λ m. list_begin m list >>= λ a.
        list_end list >>= λ b. is_sorted fuel m less a b >>= λ sorted. assert sorted >> ok m)
