-- ===== src/Reports/Totals.antt =====
-- The restart total and the age of a pod.
use kubernetes_programming.Prelude.{
  ℕ, ◌+◌, ◌*◌, ◌-◌, ◌%◌, ◌^◌, ◌≤◌, ◌<◌, List, [], ◌∷◌, ◌≡◌, ◌∙◌, ◌/◌, sym, ap, arith,
}
use kubernetes_programming.Prelude.Int.{ℤ, pos, ◌+ℤ◌, +ℤ_assoc, +ℤ_comm}
use kubernetes_programming.Clock.{Instant, sub, truncate, second, max_duration}
use kubernetes_programming.Kube.{Pod}
use kubernetes_programming.Reports.Pods.{wrap32, total_from, get_total_restarts, extract_pod_info}

-- The sum with no bound.
abbrev pub sum : List ℤ → ℤ
sum [] = pos 0
sum (c ∷ cs) = c +ℤ sum cs

wrap32_add : (a b : ℤ) → wrap32 (wrap32 a +ℤ b) ≡ wrap32 (a +ℤ b)
unfolding wrap32 ◌+ℤ◌
wrap32_add a b = ground arith

add_zero : (a : ℤ) → a +ℤ pos 0 ≡ a
unfolding ◌+ℤ◌
add_zero a = ground arith

total_from-sum : (acc : ℤ) (cs : List ℤ) → total_from (wrap32 acc) cs ≡ wrap32 (acc +ℤ sum cs)
unfolding total_from
total_from-sum acc [] = ap wrap32 (sym (add_zero acc))
total_from-sum acc (c ∷ cs) =
    ap (λ a. total_from a cs) (wrap32_add acc c)
    ∙ total_from-sum (acc +ℤ c) cs
    ∙ ap wrap32 (+ℤ_assoc acc c (sum cs))

wrap32_small : (n : ℕ) → n < 2 ^ 31 → wrap32 (pos n) ≡ pos n
unfolding wrap32
wrap32_small n h = ground arith

-- The total of the restart counts is their sum, wrapped to an int32 once, however often it has
-- wrapped on the way.
pub restarts_total : (cs : List ℤ) → get_total_restarts cs ≡ wrap32 (sum cs)
unfolding get_total_restarts
restarts_total cs =
    ap (λ a. total_from a cs) (sym (wrap32_small 0 (omega arith)))
    ∙ total_from-sum (pos 0) cs
    ∙ ap wrap32 (+ℤ_comm (pos 0) (sum cs) ∙ add_zero (sum cs))

-- It is the sum itself where that is not negative and below 2^31.
restarts_exact : (cs : List ℤ) (n : ℕ) → sum cs ≡ pos n → n < 2 ^ 31 → get_total_restarts cs ≡ pos n
restarts_exact cs n e h = restarts_total cs ∙ ap wrap32 e ∙ wrap32_small n h

truncate-sub :
    (t u : Instant)
    → u ≤ t
    → t - u ≤ max_duration
    → truncate (sub t u) second ≡ pos (t - u - (t - u) % second)
unfolding truncate sub
truncate-sub t u h b = ground arith

-- The age shown for a pod that was created at most the longest duration ago is a whole number of
-- seconds, not more than the time since its creation and less than a second short of it.
age_whole_seconds :
    (pod : Pod) (now : Instant)
    → pod.creation_timestamp ≤ now
    → now - pod.creation_timestamp ≤ max_duration
    → (s : ℕ) × ((extract_pod_info pod now).age ≡ pos (s * second))
      × (s * second ≤ now - pod.creation_timestamp)
      × (now - pod.creation_timestamp < s * second + second)
unfolding extract_pod_info
age_whole_seconds pod now h b =
    let d = now - pod.creation_timestamp in
    (
      d / second,
      truncate-sub now pod.creation_timestamp h b ∙ ap pos (whole d),
      omega arith,
      omega arith,
    )
  where
    whole : (d : ℕ) → d - d % second ≡ d / second * second
    whole d = omega arith
