-- ===== src/Chain/Target/Required.antt =====
-- The target that a block requires of the next one on the main network.
use mathlib.Core.Option.{some-injective}
use yoin.Base.{
  ℕ, ◌+◌, ◌%◌, ◌^◌, ◌≡◌, ◌≢◌, ◌↔◌, ◌⊎◌, refl, sym, ap, ◌∙◌, false, ◌==◌, ==_iff, List, [], ◌∷◌,
  some, get_elem?, Bool-cases, Option-cases, inl, inr,
}
use yoin.Chain.Target.{
  BlockTreeNode, n_interval, set_compact, get_compact, scale, actual_timespan,
  get_next_work_required,
}

-- What a parent requires of the next block on the main network: the limit behind the root, the bits
-- of the parent inside an interval, and at its end the bits of the ancestor 2015 blocks before the
-- parent, scaled by the time between the two.
abbrev pub Required : BlockTreeNode → List BlockTreeNode → ℕ → Type 0
Required parent [] bits = bits ≡ 0x1d00ffff
Required parent (p ∷ ps) bits =
    (((parent.height + 1) % 2 ^ 32 % 2016 ≢ 0) × (bits ≡ parent.bits))
    ⊎ (((parent.height + 1) % 2 ^ 32 % 2016 ≡ 0)
        × ((first : BlockTreeNode) × (get_elem? (p ∷ ps) 2014 ≡ some first)
            × (bits
                ≡ get_compact (
                    scale (set_compact first.bits)
                      (actual_timespan parent.timestamp first.timestamp)))))

pub Required-iff :
    (parent : BlockTreeNode) (ancestors : List BlockTreeNode) (ts bits : ℕ)
    → (get_next_work_required false parent ancestors ts ≡ some bits)
      ↔ Required parent ancestors bits
unfolding get_next_work_required
Required-iff parent [] ts bits = ((λ e. sym (some-injective _ _ e)), (λ e. ap some (sym e)))
Required-iff parent (p ∷ ps) ts bits =
    elim (Bool-cases ((parent.height + 1) % 2 ^ 32 % n_interval == 0)) [
      | inr inside ↦
          rw (get_next_work_required, inside)
            (
              (λ e. inl ((λ z. cc ((==_iff _ _).1 z)), sym (some-injective _ _ e))),
              (λ r. elim r [ inl (_, e) ↦ ap some (sym e) | inr (z, _) ↦ cc ((==_iff _ _).1 z) ]),
            )
      | inl end ↦
          let z = (==_iff ((parent.height + 1) % 2 ^ 32 % 2016) 0).0 end in
          elim (Option-cases (get_elem? (p ∷ ps) 2014)) [
            | inl e ↦
                rw (get_next_work_required, end, e)
                  (
                    (λ n. cc),
                    (λ r. elim r [ inl (ne, _) ↦ absurd (ne z) | inr (_, (f, at, _)) ↦ cc ]),
                  )
            | inr (first, e) ↦
                rw (get_next_work_required, end, e)
                  (
                    (λ n. inr (z, (first, refl, sym (some-injective _ _ n)))),
                    (λ r. elim r [
                      | inl (ne, _) ↦ absurd (ne z)
                      | inr (_, (f, at, same)) ↦
                          let same_first : first ≡ f = some-injective _ _ at in
                          ap some (
                            ap
                              (λ (x : BlockTreeNode). get_compact (
                                scale (set_compact x.bits)
                                  (actual_timespan parent.timestamp x.timestamp)))
                              same_first
                            ∙ sym same)
                    ]),
                  )
          ]
    ]
