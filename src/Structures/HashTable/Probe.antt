-- ===== src/Structures/HashTable/Probe.antt =====
-- What the probing loop of the hash table meets.
use snu_projects.Base.{
  ℕ, zero, suc, ◌+◌, ◌≡◌, ◌≢◌, refl, sym, ap, subst, ◌∙◌, Bool, true, false, arith, ◌==◌,
  if◌then◌else◌, Bool-cases, inl, inr, eq_of_==, ne_of_==,
}
use mathlib.Core.Bool.{false≢true}
use snu_projects.Structures.HashTable.{
  HashSlot, HashTable, slot_at, get_goes_on, put_goes_on, probe, hits,
}

-- Two tables that differ in one slot at most.
abbrev pub DiffersAt : HashTable → HashTable → ℕ → Type 0
DiffersAt t u p = (t.table_size ≡ u.table_size) × ((i : ℕ) → i ≢ p → slot_at u i ≡ slot_at t i)

get_goes_on_of_put : (key : ℕ) (s : HashSlot) → put_goes_on key s ≡ true → get_goes_on key s ≡ true
get_goes_on_of_put key s on = ground arith

same_choice {ℓ} :
    {A : Type ℓ} (a b : Bool) (x y z : A)
    → a ≡ b
    → (b ≡ true → x ≡ y)
    → (if a then x else z) ≡ (if b then y else z)
same_choice true true x y z e h = h refl
same_choice true false x y z e h = absurd (false≢true (sym e))
same_choice false true x y z e h = absurd (false≢true e)
same_choice false false x y z e h = refl

module _ (hash : ℕ → ℕ) (get_next_pos : ℕ → ℕ → ℕ → ℕ) where
  -- A key that the loop of `get` finds is found when a slot that it passes and that does not hold
  -- it changes into another such slot.
  pub probe-unchanged :
      (t u : HashTable) (p key : ℕ)
      → DiffersAt t u p
      → hits key (slot_at t p) ≡ false
      → get_goes_on key (slot_at u p) ≡ true
      → (init left pos step : ℕ)
      → hits key (slot_at t (probe hash get_next_pos (get_goes_on key) t init left pos step).0)
        ≡ true
      → probe hash get_next_pos (get_goes_on key) u init left pos step
        ≡ probe hash get_next_pos (get_goes_on key) t init left pos step
  unfolding probe
  probe-unchanged t u p key differ miss pass init zero pos step found = refl
  probe-unchanged t u p key differ miss pass init (suc left) pos step found =
      same_choice (get_goes_on key (slot_at u pos)) (get_goes_on key (slot_at t pos)) further_u
        further_t (pos, step)
        (elim (Bool-cases (pos == p)) [
          | inl e ↦ at_change (eq_of_== pos p e)
          | inr e ↦ ap (get_goes_on key) (differ.1 pos (ne_of_== pos p e))
        ])
        (λ on.
          ap
            (λ n.
              probe hash get_next_pos (get_goes_on key) u init left (get_next_pos n init step)
                (step + 1))
            (sym differ.0)
          ∙ probe-unchanged t u p key differ miss pass init left
              (get_next_pos t.table_size init step) (step + 1) (reached true on))
    where
      further_t : ℕ × ℕ
      further_t =
          probe hash get_next_pos (get_goes_on key) t init left
            (get_next_pos t.table_size init step) (step + 1)

      further_u : ℕ × ℕ
      further_u =
          probe hash get_next_pos (get_goes_on key) u init left
            (get_next_pos u.table_size init step) (step + 1)

      reached :
          (b : Bool)
          → get_goes_on key (slot_at t pos) ≡ b
          → hits key (slot_at t (if b then further_t else (pos, step)).0) ≡ true
      reached b e =
          subst (λ c. hits key (slot_at t (if c then further_t else (pos, step)).0) ≡ true) e found

      at_change : pos ≡ p → get_goes_on key (slot_at u pos) ≡ get_goes_on key (slot_at t pos)
      at_change same = elim (Bool-cases (get_goes_on key (slot_at t pos))) [
        | inl on ↦ ap (λ i. get_goes_on key (slot_at u i)) same ∙ pass ∙ sym on
        | inr off ↦
            absurd
              (false≢true (sym (ap (λ i. hits key (slot_at t i)) same ∙ miss) ∙ reached false off))
      ]

  -- Where the loop of `put` and `remove` ends, the loop of `get` ends as well when the slot there has
  -- been given the key or has kept it.
  pub probe-placed :
      (t u : HashTable) (p key : ℕ)
      → DiffersAt t u p
      → put_goes_on key (slot_at t p) ≡ false
      → get_goes_on key (slot_at u p) ≡ false
      → (init left pos step : ℕ)
      → (probe hash get_next_pos (put_goes_on key) t init left pos step).0 ≡ p
      → probe hash get_next_pos (get_goes_on key) u init left pos step
        ≡ probe hash get_next_pos (put_goes_on key) t init left pos step
  unfolding probe
  probe-placed t u p key differ halts stop init zero pos step ends = refl
  probe-placed t u p key differ halts stop init (suc left) pos step ends =
      same_choice (get_goes_on key (slot_at u pos)) (put_goes_on key (slot_at t pos)) further_u
        further_t (pos, step)
        (elim (Bool-cases (put_goes_on key (slot_at t pos))) [
          | inl on ↦ passes on
          | inr off ↦ ap (λ i. get_goes_on key (slot_at u i)) (reached false off) ∙ stop ∙ sym off
        ])
        (λ on.
          ap
            (λ n.
              probe hash get_next_pos (get_goes_on key) u init left (get_next_pos n init step)
                (step + 1))
            (sym differ.0)
          ∙ probe-placed t u p key differ halts stop init left (get_next_pos t.table_size init step)
              (step + 1) (reached true on))
    where
      further_t : ℕ × ℕ
      further_t =
          probe hash get_next_pos (put_goes_on key) t init left
            (get_next_pos t.table_size init step) (step + 1)

      further_u : ℕ × ℕ
      further_u =
          probe hash get_next_pos (get_goes_on key) u init left
            (get_next_pos u.table_size init step) (step + 1)

      reached :
          (b : Bool)
          → put_goes_on key (slot_at t pos) ≡ b
          → (if b then further_t else (pos, step)).0 ≡ p
      reached b e = subst (λ c. (if c then further_t else (pos, step)).0 ≡ p) e ends

      passes :
          put_goes_on key (slot_at t pos) ≡ true
          → get_goes_on key (slot_at u pos) ≡ put_goes_on key (slot_at t pos)
      passes on = elim (Bool-cases (pos == p)) [
        | inl e ↦ absurd (
            false≢true
              (sym halts ∙ sym (ap (λ i. put_goes_on key (slot_at t i)) (eq_of_== pos p e)) ∙ on))
        | inr e ↦
            ap (get_goes_on key) (differ.1 pos (ne_of_== pos p e))
            ∙ get_goes_on_of_put key (slot_at t pos) on
            ∙ sym on
      ]
