-- ===== src/Policy/Record/Decisions.antt =====
-- How the daemon decides once an answer is recorded.
use pfsnitch.Addr.{IpAddr, addr_eq}
use pfsnitch.Base.{
  ℕ, Bool, true, false, ◌||◌, Option, none, some, ◌≡◌, ◌≢◌, refl, sym, ap, arith, if◌then◌else◌,
  ◌==◌, nat_eq, list_eq, list_beq_iff, on_some, any, eq_self, Bool-cases, inl, inr,
}
use pfsnitch.Policy.Decide.Spec.{
  Rule, Scope, connection, scope_covers, covers, of_app, denials, decide-deny_overrides,
}
use pfsnitch.Policy.Decide.{pattern_matches, port_ok, decide}
use pfsnitch.Policy.Load.{File}
use pfsnitch.Policy.Record.Effect.{
  asked_scope, asked_rule, new_approval, new_denial, Extends, record_decision-Extends,
}
use pfsnitch.Policy.Record.{named, record_decision}
use pfsnitch.Policy.{Policy, allow, deny, Answer, allow_conn, allow_app, block, block_app, Origin}
use pfsnitch.Text.{Str, Unicode, is_empty, codes}

pattern_matches_self : (s : Str) → pattern_matches s s ≡ true
unfolding pattern_matches
pattern_matches_self s = rw eq_self

named-some : (name : Option Str) (h : Str) → named name ≡ some h → name ≡ some h
unfolding named
named-some none h e = e
named-some (some k) h e = elim (Bool-cases (is_empty k || k == codes "-")) [
  | inl placeholder ↦ cc (rw placeholder at e)
  | inr real ↦ rw real at e
]

module _ ⦃u : Unicode⦄ where
  asked_scope-covers :
      (exe name n : Option Str) (dst : IpAddr) (dport : ℕ)
      → named name ≡ n
      → scope_covers (asked_scope n dst dport) (connection exe dst name dport) ≡ true
  unfolding asked_scope scope_covers port_ok
  asked_scope-covers exe name none dst dport e = rw (eq_self, eq_self)
  asked_scope-covers exe name (some h) dst dport e =
      rw (named-some name h e, eq_self, pattern_matches_self)

  -- The rule that an answer makes covers the connection that was asked about.
  asked_rule-covers :
      (exe name : Option Str) (dst : IpAddr) (dport : ℕ)
      → covers (connection exe dst name dport) (asked_rule exe name dst dport) ≡ true
  unfolding covers
  asked_rule-covers none name dst dport = asked_scope-covers none name (named name) dst dport refl
  asked_rule-covers (some e) name dst dport =
      rw eq_self (asked_scope-covers (some e) name (named name) dst dport refl)

  whole_app-covers :
      (e : Str) (name : Option Str) (dst : IpAddr) (dport : ℕ)
      → covers (connection (some e) dst name dport) (of_app e) ≡ true
  unfolding covers scope_covers
  whole_app-covers e name dst dport = rw eq_self

  module _ (p : Policy) (writable : Bool) (file : File) (dst : IpAddr) (name : Option Str)
      (dport : ℕ) (origin : Origin) where
    abbrev pub after : Answer → Option Str → Policy
    after ans exe = (record_decision p writable file ans exe dst name dport origin).0

    -- After "allow connection" the connection that was asked about is allowed, unless a denial
    -- that stood before covers it: an approval never lifts a denial.
    pub decide-allow_conn :
        (exe : Option Str)
        → decide (after allow_conn exe) exe dst name dport
          ≡ (if any (covers (connection exe dst name dport)) (denials p) then deny else allow)
    unfolding new_approval new_denial
    decide-allow_conn exe =
        let x = record_decision-Extends p writable file allow_conn exe dst name dport origin in
        rw (decide-deny_overrides, x.denied, x.approved, asked_rule-covers)

    -- After "block" the connection that was asked about is denied, whether or not its binary is
    -- known, and whatever else the policy holds.
    pub decide-block : (exe : Option Str) → decide (after block exe) exe dst name dport ≡ deny
    unfolding new_approval new_denial
    decide-block exe =
        let x = record_decision-Extends p writable file block exe dst name dport origin in
        rw (decide-deny_overrides, x.denied, asked_rule-covers)

    -- After "allow app" every connection of that binary is allowed that no denial covers.
    decide-allow_app :
        (e : Str) (dst' : IpAddr) (name' : Option Str) (dport' : ℕ)
        → decide (after allow_app (some e)) (some e) dst' name' dport' ≡ (
            if any (covers (connection (some e) dst' name' dport')) (denials p)
            then deny
            else allow)
    unfolding new_approval new_denial
    decide-allow_app e dst' name' dport' =
        let x = record_decision-Extends p writable file allow_app (some e) dst name dport origin in
        rw (decide-deny_overrides, x.denied, x.approved, whole_app-covers)

    -- After "block app" every connection of that binary is denied, whatever was approved.
    decide-block_app :
        (e : Str) (dst' : IpAddr) (name' : Option Str) (dport' : ℕ)
        → decide (after block_app (some e)) (some e) dst' name' dport' ≡ deny
    unfolding new_approval new_denial
    decide-block_app e dst' name' dport' =
        let x = record_decision-Extends p writable file block_app (some e) dst name dport origin in
        rw (decide-deny_overrides, x.denied, whole_app-covers)

  -- Rules that do not cover a connection do not change its verdict.
  decide-Extends :
      (p p' : Policy) (a d : Option Rule) (exe : Option Str) (dst : IpAddr) (name : Option Str)
      (dport : ℕ)
      → Extends p p' a d
      → on_some a (covers (connection exe dst name dport)) ≡ false
      → on_some d (covers (connection exe dst name dport)) ≡ false
      → decide p' exe dst name dport ≡ decide p exe dst name dport
  decide-Extends p p' a d exe dst name dport x ha hd =
      rw (decide-deny_overrides, x.denied, x.approved, x.same_default, ha, hd)
        (sym (decide-deny_overrides p exe dst name dport))

  not-for_app :
      (e : Str) (exe' : Option Str) (s : Scope) (dst : IpAddr) (name : Option Str) (dport : ℕ)
      → exe' ≢ some e
      → covers (connection exe' dst name dport) (record { app = some e; scope = s }) ≡ false
  unfolding covers
  not-for_app e none s dst name dport h = refl
  not-for_app e (some e') s dst name dport h = elim (Bool-cases (e == e')) [
    | inl same ↦ absurd (h (ap some (sym ((list_beq_iff e e').0 same))))
    | inr other ↦ rw other
  ]

  not-for_port :
      (exe' : Option Str) (r : Option Str) (n : Option Str) (dst dst' : IpAddr) (name' : Option Str)
      (dport dport' : ℕ)
      → dport ≢ dport'
      → covers
          (connection exe' dst' name' dport')
          (record { app = r; scope = asked_scope n dst dport })
        ≡ false
  unfolding covers scope_covers asked_scope port_ok
  not-for_port exe' r none dst dst' name' dport dport' h = ground arith
  not-for_port exe' r (some x) dst dst' none dport dport' h = ground arith
  not-for_port exe' r (some x) dst dst' (some y) dport dport' h = ground arith

  -- An answer about one binary leaves the verdict on every connection of another binary, or of
  -- none that is known, as it was.
  pub decide-other_binary :
      (p : Policy) (writable : Bool) (file : File) (ans : Answer) (e : Str) (dst : IpAddr)
      (name : Option Str) (dport : ℕ) (origin : Origin) (exe' : Option Str) (dst' : IpAddr)
      (name' : Option Str) (dport' : ℕ)
      → exe' ≢ some e
      → decide
          (record_decision p writable file ans (some e) dst name dport origin).0
          exe'
          dst'
          name'
          dport'
        ≡ decide p exe' dst' name' dport'
  unfolding new_approval new_denial
  decide-other_binary p w file ans e dst name dport origin exe' dst' name' dport' h =
      decide-Extends p _ _ _ exe' dst' name' dport'
        (record_decision-Extends p w file ans (some e) dst name dport origin) (approval ans)
        (denial ans)
    where
      approval :
          (ans : Answer)
          → on_some
              (new_approval ans (some e) name dst dport)
              (covers (connection exe' dst' name' dport'))
            ≡ false
      approval allow_conn = not-for_app e exe' _ dst' name' dport' h
      approval allow_app = not-for_app e exe' _ dst' name' dport' h
      approval _ = refl

      denial :
          (ans : Answer)
          → on_some
              (new_denial ans (some e) name dst dport)
              (covers (connection exe' dst' name' dport'))
            ≡ false
      denial block = not-for_app e exe' _ dst' name' dport' h
      denial block_app = not-for_app e exe' _ dst' name' dport' h
      denial _ = refl

  -- An answer about one connection leaves the verdict on every connection to another port as it
  -- was: what is not an answer about the whole binary never opens or closes another port.
  pub decide-other_port :
      (p : Policy) (writable : Bool) (file : File) (ans : Answer) (exe : Option Str) (dst : IpAddr)
      (name : Option Str) (dport : ℕ) (origin : Origin) (exe' : Option Str) (dst' : IpAddr)
      (name' : Option Str) (dport' : ℕ)
      → ans ≢ allow_app
      → ans ≢ block_app
      → dport ≢ dport'
      → decide
          (record_decision p writable file ans exe dst name dport origin).0
          exe'
          dst'
          name'
          dport'
        ≡ decide p exe' dst' name' dport'
  unfolding new_approval new_denial
  decide-other_port p w file ans exe dst name dport origin exe' dst' name' dport' ha hb h =
      decide-Extends p _ _ _ exe' dst' name' dport'
        (record_decision-Extends p w file ans exe dst name dport origin) (approval ans ha)
        (denial ans hb)
    where
      approval :
          (ans : Answer)
          → ans ≢ allow_app
          → on_some
              (new_approval ans exe name dst dport)
              (covers (connection exe' dst' name' dport'))
            ≡ false
      approval allow_conn k = not-for_port exe' exe (named name) dst dst' name' dport dport' h
      approval allow_app k = absurd (k refl)
      approval _ k = refl

      denial :
          (ans : Answer)
          → ans ≢ block_app
          → on_some (new_denial ans exe name dst dport) (covers (connection exe' dst' name' dport'))
            ≡ false
      denial block k = not-for_port exe' exe (named name) dst dst' name' dport dport' h
      denial block_app k = absurd (k refl)
      denial _ k = refl
