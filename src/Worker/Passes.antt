-- ===== src/Worker/Passes.antt =====
-- The history of passes.
use autonomous_executive_ema.Base.{
  ℕ, zero, suc, ◌+◌, ◌-◌, ◌≤◌, ◌≡◌, List, [], ◌∷◌, ◌++◌, length, arith,
}
use autonomous_executive_ema.Worker.{Worker, Summary, record_pass, drop_first}

length-drop_first : (n : ℕ) (xs : List (ℕ × Summary)) → length (drop_first n xs) ≡ length xs - n
unfolding drop_first
length-drop_first zero xs = omega arith
length-drop_first (suc n) [] = omega arith
length-drop_first (suc n) (x ∷ xs) = omega (arith, length-drop_first n xs)

unfoldable pub record_all : List (ℕ × Summary) → Worker → Worker
record_all [] k = k
record_all ((now, s) ∷ history) k = record_all history (record_pass s now k)

-- The heartbeat stays small: after any passes a worker with at most ten in its history has counted them
-- all and keeps at most ten.
pub recent_is_short :
    (history : List (ℕ × Summary)) (k : Worker)
    → length k.recent ≤ 10
    → (length (record_all history k).recent ≤ 10)
      × ((record_all history k).passes ≡ k.passes + length history)
unfolding record_all record_pass
recent_is_short [] k h = (h, omega arith)
recent_is_short ((now, s) ∷ history) k h =
    let all = k.recent ++ (now, s) ∷ [] in
    let (short, counted) =
      recent_is_short history (record_pass s now k)
        (omega (arith, length-drop_first (length all - 10) all)) in
    (short, omega (arith, counted))
