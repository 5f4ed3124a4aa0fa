-- ===== src/FastPath/Ring.antt =====
-- A ring whose indices are uint32_t counters that wrap round at 2 ^ 32, as in `CompletionQueue`,
-- `FastPathRing` and `FastPathResponseBuffer`. `slot` takes an index to its place in the array.
use gpu_rotation_engine.Base.{
  ℕ, zero, suc, ◌+◌, ◌-◌, ◌%◌, ◌^◌, ◌≤◌, ◌<◌, ◌≡◌, ◌≢◌, refl, sym, ap, ◌∙◌, subst, List, [], ◌∷◌,
  ◌++◌, arith, length, update, update_self, update_ne, append_assoc, append-nil,
}

abbrev pub u32_mod : ℕ
u32_mod = 2 ^ 32

-- `i + n` and `t - h` on uint32_t.
abbrev pub u32_add : ℕ → ℕ → ℕ
u32_add i n = (i + n) % 2 ^ 32

abbrev pub u32_sub : ℕ → ℕ → ℕ
u32_sub t h = (t + 2 ^ 32 - h) % 2 ^ 32

-- Up to `cap` indices in a row have places of their own.
abbrev pub Apart : ℕ → (ℕ → ℕ) → Type 0
Apart cap slot = (h i : ℕ) → h < 2 ^ 32 → 0 < i → i < cap → slot (u32_add h i) ≢ slot h

module _ {A : Type 0} (slot : ℕ → ℕ) where
  -- The `n` elements from index `h` on.
  unfoldable pub window : (ℕ → A) → ℕ → ℕ → List A
  window buf h zero = []
  window buf h (suc n) = buf (slot h) ∷ window buf (u32_add h 1) n

  -- `buf[slot (t + i)] = xs[i]`, in order.
  unfoldable pub write_all : (ℕ → A) → ℕ → List A → ℕ → A
  write_all buf t [] = buf
  write_all buf t (x ∷ xs) = write_all (update buf (slot t) x) (u32_add t 1) xs

  pub length-window : (buf : ℕ → A) (h n : ℕ) → length (window buf h n) ≡ n
  unfolding window
  length-window buf h zero = refl
  length-window buf h (suc n) = ap suc (length-window buf (u32_add h 1) n)

  pub window_split :
      (buf : ℕ → A) (h m n : ℕ)
      → h < 2 ^ 32
      → window buf h (m + n) ≡ window buf h m ++ window buf (u32_add h m) n
  unfolding window
  window_split buf h zero n lt =
      let e : n ≡ zero + n = omega arith in
      let f : h ≡ u32_add h 0 = omega arith in
      subst (λ k. window buf h k ≡ window buf (u32_add h 0) n) e (ap (λ i. window buf i n) f)
  window_split buf h (suc m) n lt =
      let e : suc (m + n) ≡ suc m + n = omega arith in
      let f : u32_add (u32_add h 1) m ≡ u32_add h (suc m) = omega arith in
      subst (λ k. window buf h k ≡ window buf h (suc m) ++ window buf (u32_add h (suc m)) n) e
        (ap (◌∷◌ (buf (slot h))) (
          window_split buf (u32_add h 1) m n (omega arith)
          ∙ ap (λ i. window buf (u32_add h 1) m ++ window buf i n) f))

  module _ (cap : ℕ) (apart : Apart cap slot) where
    -- A write just behind a window extends it.
    window-update :
        (buf : ℕ → A) (a : A) (h n : ℕ)
        → h < 2 ^ 32
        → n < cap
        → window (update buf (slot (u32_add h n)) a) h (suc n) ≡ window buf h n ++ (a ∷ [])
    unfolding window
    window-update buf a h zero lt n_lt =
        let e : u32_add h 0 ≡ h = omega arith in
        ap (λ x. x ∷ []) (rw (e, update_self buf (slot h) a) refl)
    window-update buf a h (suc n) lt n_lt =
        let e : u32_add (u32_add h 1) n ≡ u32_add h (suc n) = omega arith in
        let kept : update buf (slot (u32_add h (suc n))) a (slot h) ≡ buf (slot h) =
          update_ne buf (slot (u32_add h (suc n))) (slot h) a
            (apart h (suc n) lt (omega arith) n_lt) in
        ap (λ x. x ∷ window (update buf (slot (u32_add h (suc n))) a) (u32_add h 1) (suc n)) kept
        ∙ ap (◌∷◌ (buf (slot h))) (
            subst
              (λ k.
                window (update buf (slot k) a) (u32_add h 1) (suc n)
                ≡ window buf (u32_add h 1) n ++ (a ∷ []))
              e (window-update buf a (u32_add h 1) n (omega arith) (omega arith)))

    -- A list written just behind a window extends it, while there is room for all of it.
    pub window-write_all :
        (xs : List A) (buf : ℕ → A) (h n : ℕ)
        → h < 2 ^ 32
        → n + length xs ≤ cap
        → window (write_all buf (u32_add h n) xs) h (n + length xs) ≡ window buf h n ++ xs
    unfolding write_all
    window-write_all [] buf h n lt fits =
        let e : n + 0 ≡ n = omega arith in ap (window buf h) e ∙ sym (append-nil (window buf h n))
    window-write_all (x ∷ xs) buf h n lt fits =
        let e : n + suc (length xs) ≡ suc n + length xs = omega arith in
        let f : u32_add (u32_add h n) 1 ≡ u32_add h (suc n) = omega arith in
        let buf' : ℕ → A = update buf (slot (u32_add h n)) x in
        ap (window (write_all buf' (u32_add (u32_add h n) 1) xs) h) e
        ∙ ap (λ k. window (write_all buf' k xs) h (suc n + length xs)) f
        ∙ window-write_all xs buf' h (suc n) lt (omega arith)
        ∙ ap (λ v. v ++ xs) (window-update buf x h n lt (omega arith))
        ∙ append_assoc (window buf h n) (x ∷ []) xs
