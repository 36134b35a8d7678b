-- ===== src/Observe/History.antt =====
-- The capped histories of the snapshot.
use godot_mcp.Base.{
  min, Bool-cases, inl, inr, ℕ, zero, suc, ◌+◌, ◌-◌, ◌≤◌, ◌≡◌, refl, ◌∙◌, ap, List, [], ◌∷◌, ◌++◌,
  length, drop, length-append, length-drop, ltb, arith, min,
}
use godot_mcp.Observe.{history_max, push_capped}

module _ {ℓ} {A : Type ℓ} where
  drop-append :
      (n : ℕ) (xs : List A) (x : A) → n ≤ length xs → drop n (xs ++ x ∷ []) ≡ drop n xs ++ x ∷ []
  drop-append zero xs x h = refl
  drop-append (suc n) [] x h = absurd (omega arith)
  drop-append (suc n) (y ∷ xs) x h = drop-append n xs x (omega arith)

  -- The capped list by its length: what is over the cap, if anything, goes from the front.
  capped :
      (x : A) (xs : List A)
      → push_capped x xs ≡ drop (length (xs ++ x ∷ []) - history_max) (xs ++ x ∷ [])
  unfolding push_capped
  capped x xs = elim (Bool-cases (ltb history_max (length (xs ++ x ∷ [])))) [
    | inl over ↦ rw over refl
    | inr within ↦
        let none_over : length (xs ++ x ∷ []) - history_max ≡ 0 = ground arith in
        rw (within, none_over) refl
  ]

  over_length :
      (x : A) (xs : List A) → length (xs ++ x ∷ []) - history_max ≡ length xs + 1 - history_max
  over_length x xs = omega (arith, length-append xs (x ∷ []))

  -- A history that is full loses its oldest entries, and no more than it has to: the new entry is
  -- last, the newest earlier ones stand before it in their order, and there are as many as fit.
  pub push_capped_keeps :
      (x : A) (xs : List A)
      → (push_capped x xs ≡ drop (length xs + 1 - history_max) xs ++ x ∷ [])
        × (length (push_capped x xs) ≡ min (length xs + 1) history_max)
  push_capped_keeps x xs =
      let front : push_capped x xs ≡ drop (length xs + 1 - history_max) xs ++ x ∷ [] =
        capped x xs
        ∙ ap (λ (n : ℕ). drop n (xs ++ x ∷ [])) (over_length x xs)
        ∙ drop-append (length xs + 1 - history_max) xs x (omega arith) in
      let counted : length (push_capped x xs)
          ≡ length (drop (length xs + 1 - history_max) xs ++ x ∷ []) =
        ap (λ (ys : List A). length ys) front in
      (
        front,
        omega (
          arith,
          counted,
          length-append (drop (length xs + 1 - history_max) xs) (x ∷ []),
          length-drop (length xs + 1 - history_max) xs,
        ),
      )
