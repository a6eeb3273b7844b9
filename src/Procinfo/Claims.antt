-- ===== src/Procinfo/Claims.antt =====
-- The weak tiers of src/procinfo.rs: what a key that is not contested says.
use pfsnitch.Base.{
  false, List, some, ◌≡◌, refl, ◌∙◌, arith, PartialEq, ◌==◌, nat_eq, contains, lookup, Option-cases,
  Bool-cases, inl, inr, lookup-put, contains-insert, eq_self,
}
use pfsnitch.Procinfo.{Owner, claim, uncontested}

module _ {ℓ} {K : Type ℓ} ⦃e : PartialEq K⦄ where
  -- The key has an owner, and if it is not contested that owner has the pid of `o`.
  pub record Agrees (k : K) (o : Owner) (m : List (K × Owner)) (c : List K) : Type ℓ where
    pub first : Owner
    pub holds : lookup k m ≡ some first
    pub agrees : contains k c ≡ false → first.pid ≡ o.pid

  -- A claim is agreed to, or makes its key contested; and it stays so under every later claim.
  pub claim-Agrees :
      (k : K) (o : Owner) (m : List (K × Owner)) (c : List K)
      → Agrees k o (claim k o m c).0 (claim k o m c).1
  unfolding claim
  claim-Agrees k o m c = elim (Option-cases (lookup k m)) [
    | inl free ↦
        rw (free, claim)
          record { first = o; holds = lookup-put k k o m ∙ rw (eq_self k); agrees = λ h. refl }
    | inr (prev, taken) ↦
        rw (taken, claim)
          (elim (Bool-cases (prev.pid == o.pid)) [
            | inl same ↦
                rw (same, claim) record { first = prev; holds = taken; agrees = λ h. ground arith }
            | inr differ ↦
                rw (differ, claim)
                  record {
                    first = prev;
                    holds = taken;
                    agrees = λ h. ground (arith, contains-insert k k c, eq_self k);
                  }
          ])
  ]

  pub claim-keeps :
      (k : K) (o : Owner) (j : K) (x : Owner) (m : List (K × Owner)) (c : List K)
      → Agrees k o m c
      → Agrees k o (claim j x m c).0 (claim j x m c).1
  unfolding claim
  claim-keeps k o j x m c a = elim (Option-cases (lookup j m)) [
    | inl free ↦
        rw (free, claim)
          record {
            first = a.first;
            holds = ground (arith, lookup-put j k x m, e.same_iff j k, a.holds, free);
            agrees = a.agrees;
          }
    | inr (prev, taken) ↦
        rw (taken, claim)
          (elim (Bool-cases (prev.pid == x.pid)) [
            | inl same ↦ rw (same, claim) a
            | inr differ ↦
                rw (differ, claim)
                  record {
                    first = a.first;
                    holds = a.holds;
                    agrees = λ h. a.agrees (ground (arith, contains-insert j k c));
                  }
          ])
  ]

  -- What a weak tier answers agrees with the claim.
  pub uncontested-Agrees :
      (k : K) (o x : Owner) (m : List (K × Owner)) (c : List K)
      → Agrees k o m c
      → uncontested k m c ≡ some x
      → o.pid ≡ x.pid
  unfolding uncontested
  uncontested-Agrees k o x m c a h = ground (arith, a.holds, a.agrees)
