-- ===== src/Verifier/Registry/Balance.antt =====
-- What the registration and the status calls make of the stakes.
use fusotao_protocol.Base.{
  ℕ, ◌-◌, ◌%◌, ◌<◌, ◌≡◌, ◌⊎◌, refl, none, List, Option-cases, inl, inr, ◌==◌, arith, Bool-cases,
}
use fusotao_protocol.Base.Assoc.{find, store}
use fusotao_protocol.Token.Types.{Origin, root, unsigned, signed}
use fusotao_protocol.Verifier.State.{
  State, Config, Dominator, dominator_registered, dominator_evicted, dominator_inactive,
}
use fusotao_protocol.Verifier.Stakes.Balance.{
  IsBalanced, is_graded, store-IsBalanced, same-IsBalanced,
}
use fusotao_protocol.Verifier.Registry.{register, evict, launch}

module _ {N : Type 0} (cf : Config N) where
  pub evict-IsBalanced :
      (origin : Origin) (target : ℕ) (s : State N)
      → IsBalanced cf s
      → IsBalanced cf (evict cf origin target s).1
  unfolding evict
  evict-IsBalanced (signed who) target s h = h
  evict-IsBalanced unsigned target s h = h
  evict-IsBalanced root target s h = elim (Option-cases (cf.lookup_account target)) [
    | inl e ↦ rw e h
    | inr (id, e) ↦ elim (Option-cases (find id s.dominators)) [
      | inl e1 ↦ rw e (rw e1 h)
      | inr (d, e1) ↦
          store-IsBalanced cf id (record d { status = dominator_evicted }) s
            (evict cf root target s).1 (ground (arith, e, e1)) (ground (arith, e, e1))
            (ground (arith, e1)) (unfold is_graded in refl) h
    ]
  ]

  pub launch-IsBalanced :
      (origin : Origin) (target : ℕ) (s : State N)
      → 0 < cf.dominator_online_threshold
      → IsBalanced cf s
      → IsBalanced cf (launch cf origin target s).1
  unfolding launch
  launch-IsBalanced (signed who) target s pos h = h
  launch-IsBalanced unsigned target s pos h = h
  launch-IsBalanced root target s pos h = elim (Option-cases (cf.lookup_account target)) [
    | inl e ↦ rw e h
    | inr (id, e) ↦ elim (Option-cases (find id s.dominators)) [
      | inl e1 ↦ rw e (rw e1 h)
      | inr (d, e1) ↦ elim (Bool-cases (d.status == dominator_registered)) [
        | inr e2 ↦
            same-IsBalanced cf s (launch cf root target s).1 (ground (arith, e, e1, e2))
              (ground (arith, e, e1, e2)) h
        | inl e2 ↦
            store-IsBalanced cf id (record d { status = dominator_inactive }) s
              (launch cf root target s).1 (ground (arith, e, e1, e2)) (ground (arith, e, e1, e2))
              (ground (arith, e1)) (unfold is_graded in ground (arith, e1, e2, pos, h.1 id)) h
      ]
    ]
  ]

  -- The entry of a dominator that registers in a block.
  abbrev pub newcomer : List ℕ → ℕ → Dominator
  newcomer name now = record {
    name = name;
    staked = 0;
    start_from = now - now % cf.dominator_check_grace_period;
    sequence = (0, now);
    merkle_root = cf.zero_hash;
    status = dominator_registered;
  }

  pub register-effect :
      (who : ℕ) (name : List ℕ) (s : State N)
      → ((register cf (signed who) name s).1.stakings ≡ s.stakings)
        × (((register cf (signed who) name s).1.dominators ≡ s.dominators)
            ⊎ ((find who s.dominators ≡ none)
                × ((register cf (signed who) name s).1.dominators
                    ≡ store who (newcomer name s.now) s.dominators)))
  unfolding register
  register-effect who name s = ground arith

  pub register-IsBalanced :
      (origin : Origin) (name : List ℕ) (s : State N)
      → IsBalanced cf s
      → IsBalanced cf (register cf origin name s).1
  unfolding is_graded
  register-IsBalanced root name s h = unfold register in h
  register-IsBalanced unsigned name s h = unfold register in h
  register-IsBalanced (signed who) name s h =
      let (stakings, dominators) = register-effect who name s in
      elim dominators [
        | inl same ↦ same-IsBalanced cf s (register cf (signed who) name s).1 same stakings h
        | inr (fresh, stored) ↦
            store-IsBalanced cf who (newcomer name s.now) s (register cf (signed who) name s).1
              stored stakings (ground (arith, fresh)) refl h
      ]
