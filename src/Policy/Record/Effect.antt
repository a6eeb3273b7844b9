-- ===== src/Policy/Record/Effect.antt =====
-- What `record` does to the meaning of a policy: it adds the one rule that the answer speaks of.
use pfsnitch.Addr.{IpAddr, addr_eq}
use pfsnitch.Base.{
  ℕ, Bool, ◌||◌, Option, none, some, ◌≡◌, refl, arith, nat_eq, list_eq, option_eq, pair_eq,
  triple_eq, on_some, any,
}
use pfsnitch.Policy.Decide.Spec.{
  Rule, Scope, host, address, Connection, covers, of_app, denials, approvals, any-append,
  any-map-insert,
}
use pfsnitch.Policy.Load.{File}
use pfsnitch.Policy.Record.{named, record_allow, record_block, record_rule, record_decision}
use pfsnitch.Policy.{Policy, Answer, allow_conn, allow_app, block, block_app, timeout, Origin}
use pfsnitch.Text.{Str, Unicode, to_lowercase}

module _ ⦃u : Unicode⦄ where
  -- A name covers every address behind it; with no name the address stands for itself.
  unfoldable pub asked_scope : Option Str → IpAddr → ℕ → Scope
  asked_scope (some h) dst dport = host (to_lowercase h) (some dport)
  asked_scope none dst dport = address dst (some dport)

  -- The rule for the connection that was asked about, and for its binary alone where that is known.
  abbrev pub asked_rule : Option Str → Option Str → IpAddr → ℕ → Rule
  asked_rule exe name dst dport = record { app = exe; scope = asked_scope (named name) dst dport }

  abbrev pub whole_app : Option Str → Option Rule
  whole_app none = none
  whole_app (some e) = some (of_app e)

  -- The approval that an answer adds, if any, and the denial.
  unfoldable pub new_approval : Answer → Option Str → Option Str → IpAddr → ℕ → Option Rule
  new_approval allow_conn exe name dst dport = some (asked_rule exe name dst dport)
  new_approval allow_app exe name dst dport = whole_app exe
  new_approval block exe name dst dport = none
  new_approval block_app exe name dst dport = none
  new_approval timeout exe name dst dport = none

  unfoldable pub new_denial : Answer → Option Str → Option Str → IpAddr → ℕ → Option Rule
  new_denial allow_conn exe name dst dport = none
  new_denial allow_app exe name dst dport = none
  new_denial block exe name dst dport = some (asked_rule exe name dst dport)
  new_denial block_app exe name dst dport = whole_app exe
  new_denial timeout exe name dst dport = none

  -- `p'` is `p` with these rules more, as far as any connection can tell.
  pub record Extends (p p' : Policy) (approval denial : Option Rule) : Type 0 where
    pub approved :
        (c : Connection)
        → any (covers c) (approvals p')
          ≡ (on_some approval (covers c) || any (covers c) (approvals p))
    pub denied :
        (c : Connection)
        → any (covers c) (denials p') ≡ (on_some denial (covers c) || any (covers c) (denials p))
    pub same_default : p'.default ≡ p.default

  record_allow-Extends :
      (p : Policy) (exe name : Option Str) (dst : IpAddr) (dport : ℕ) (origin : Origin)
      → Extends p
          (record_allow p exe name dst dport origin).0
          (some (record { app = exe; scope = asked_scope name dst dport }))
          none
  unfolding record_allow approvals denials asked_scope
  record_allow-Extends p (some e) (some h) dst dport origin = record {
    approved = λ c. simp (any-append, any-map-insert) (ground arith);
    denied = λ c. refl;
    same_default = refl;
  }
  record_allow-Extends p (some e) none dst dport origin = record {
    approved = λ c. simp (any-append, any-map-insert) (ground arith);
    denied = λ c. refl;
    same_default = refl;
  }
  record_allow-Extends p none (some h) dst dport origin = record {
    approved = λ c. simp (any-append, any-map-insert) (ground arith);
    denied = λ c. refl;
    same_default = refl;
  }
  record_allow-Extends p none none dst dport origin = record {
    approved = λ c. simp (any-append, any-map-insert) (ground arith);
    denied = λ c. refl;
    same_default = refl;
  }

  record_block-Extends :
      (p : Policy) (exe name : Option Str) (dst : IpAddr) (dport : ℕ)
      → Extends p
          (record_block p exe name dst dport).0
          none
          (some (record { app = exe; scope = asked_scope name dst dport }))
  unfolding record_block approvals denials asked_scope
  record_block-Extends p (some e) (some h) dst dport = record {
    approved = λ c. refl;
    denied = λ c. simp (any-append, any-map-insert) (ground arith);
    same_default = refl;
  }
  record_block-Extends p (some e) none dst dport = record {
    approved = λ c. refl;
    denied = λ c. simp (any-append, any-map-insert) (ground arith);
    same_default = refl;
  }
  record_block-Extends p none (some h) dst dport = record {
    approved = λ c. refl;
    denied = λ c. simp (any-append, any-map-insert) (ground arith);
    same_default = refl;
  }
  record_block-Extends p none none dst dport = record {
    approved = λ c. refl;
    denied = λ c. simp (any-append, any-map-insert) (ground arith);
    same_default = refl;
  }

  Extends-refl : (p : Policy) → Extends p p none none
  Extends-refl p = record { approved = λ c. refl; denied = λ c. refl; same_default = refl }

  -- For every answer, `record` changes what the policy means by the rule that the answer speaks of
  -- and by nothing else: no other approval or denial appears or goes, and the default stays.
  pub record_decision-Extends :
      (p : Policy) (writable : Bool) (file : File) (ans : Answer) (exe : Option Str) (dst : IpAddr)
      (name : Option Str) (dport : ℕ) (origin : Origin)
      → Extends p
          (record_decision p writable file ans exe dst name dport origin).0
          (new_approval ans exe name dst dport)
          (new_denial ans exe name dst dport)
  unfolding record_decision record_rule new_approval new_denial approvals denials
  record_decision-Extends p w file allow_conn exe dst name dport origin =
      record_allow-Extends p exe (named name) dst dport origin
  record_decision-Extends p w file allow_app (some e) dst name dport origin = record {
    approved = λ c. simp (any-append, any-map-insert) (ground arith);
    denied = λ c. refl;
    same_default = refl;
  }
  record_decision-Extends p w file allow_app none dst name dport origin = Extends-refl p
  record_decision-Extends p w file block exe dst name dport origin =
      record_block-Extends p exe (named name) dst dport
  record_decision-Extends p w file block_app (some e) dst name dport origin = record {
    approved = λ c. refl;
    denied = λ c. simp (any-append, any-map-insert) (ground arith);
    same_default = refl;
  }
  record_decision-Extends p w file block_app none dst name dport origin = Extends-refl p
  record_decision-Extends p w file timeout exe dst name dport origin = Extends-refl p
