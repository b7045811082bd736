-- ===== src/Verifier/Registry/Evicted.antt =====
-- A dominator that was evicted stays so when dominators register, are launched or evicted.
use fusotao_protocol.Base.{ℕ, refl, List, Option-cases, inl, inr, ◌==◌, Bool-cases, arith}
use fusotao_protocol.Base.Assoc.{find, find-store}
use fusotao_protocol.Token.Types.{Origin, root, unsigned, signed}
use fusotao_protocol.Verifier.State.{
  State, Config, dominator_registered, dominator_inactive, dominator_evicted,
}
use fusotao_protocol.Verifier.Stakes.Evicted.{IsEvicted, store-IsEvicted, same-IsEvicted}
use fusotao_protocol.Verifier.Registry.{register, evict, launch}
use fusotao_protocol.Verifier.Registry.Balance.{newcomer, register-effect}

module _ {N : Type 0} (cf : Config N) (k : ℕ) where
  pub register-IsEvicted :
      (origin : Origin) (name : List ℕ) (s : State N)
      → IsEvicted k s
      → IsEvicted k (register cf origin name s).1
  register-IsEvicted root name s h = unfold register in h
  register-IsEvicted unsigned name s h = unfold register in h
  register-IsEvicted (signed who) name s h =
      let (stakings, dominators) = register-effect cf who name s in
      elim dominators [
        | inl same ↦ same-IsEvicted k s (register cf (signed who) name s).1 same h
        | inr (fresh, stored) ↦
            rw stored
              (ground (arith, fresh, h, find-store k who (newcomer cf name s.now) s.dominators))
      ]

  pub evict-IsEvicted :
      (origin : Origin) (target : ℕ) (s : State N)
      → IsEvicted k s
      → IsEvicted k (evict cf origin target s).1
  unfolding evict
  evict-IsEvicted (signed who) target s h = h
  evict-IsEvicted unsigned target s h = h
  evict-IsEvicted root target s h = elim (Option-cases (cf.lookup_account target)) [
    | inl e ↦ rw e h
    | inr (id, e) ↦ elim (Option-cases (find id s.dominators)) [
      | inl e1 ↦ rw e (rw e1 h)
      | inr (d, e1) ↦
          store-IsEvicted k id d (record d { status = dominator_evicted }) s
            (evict cf root target s).1 e1 (ground (arith, e, e1)) (inr refl) h
    ]
  ]

  pub launch-IsEvicted :
      (origin : Origin) (target : ℕ) (s : State N)
      → IsEvicted k s
      → IsEvicted k (launch cf origin target s).1
  unfolding launch
  launch-IsEvicted (signed who) target s h = h
  launch-IsEvicted unsigned target s h = h
  launch-IsEvicted root target s h = elim (Option-cases (cf.lookup_account target)) [
    | inl e ↦ rw e h
    | inr (id, e) ↦ elim (Option-cases (find id s.dominators)) [
      | inl e1 ↦ rw e (rw e1 h)
      | inr (d, e1) ↦ elim (Bool-cases (d.status == dominator_registered)) [
        | inr e2 ↦ same-IsEvicted k s (launch cf root target s).1 (ground (arith, e, e1, e2)) h
        | inl e2 ↦
            store-IsEvicted k id d (record d { status = dominator_inactive }) s
              (launch cf root target s).1 e1 (ground (arith, e, e1, e2)) (inl (ground (arith, e2)))
              h
      ]
    ]
  ]
