-- ===== src/Policy/Record/Persist/Apply.antt =====
-- What `load` makes of the values that `record` writes to the file.
use pfsnitch.Addr.{IpAddr, parse_ip, show_ip, addr_eq}
use pfsnitch.Base.{
  ℕ, false, [], ◌∷◌, ◌++◌, Option, some, ◌≡◌, ◌≢◌, refl, ◌∙◌, arith, nat_eq, insert, list_eq,
  option_eq, pair_eq, triple_eq,
}
use pfsnitch.Policy.Load.Lines.{is_hash, IsTrimmed, IsTrimmed-pair, split_scoped-pair}
use pfsnitch.Policy.Load.{directive, apply_directive, if_scoped, if_ip}
use pfsnitch.Policy.Target.RoundTrip.{IsSpelled, join_target-word, split_target-join_target}
use pfsnitch.Policy.Target.{join_target, split_scoped}
use pfsnitch.Policy.{Policy}
use pfsnitch.Text.Laws.{NoneOf, is_break}
use pfsnitch.Text.{Str, codes, is_white, Unicode, to_lowercase}

-- A binary's path that a line of the file can hold: no "#", no line break, and no white space at
-- either end. White space inside is allowed.
pub record IsPath (e : Str) : Type 0 where
  pub trimmed : IsTrimmed e
  pub no_hash : NoneOf is_hash e
  pub no_break : NoneOf is_break e

-- A destination that a line of the file can hold with the port.
pub record IsDest (h : Str) (p : ℕ) : Type 0 where
  pub spelled : IsSpelled h p
  pub no_hash : NoneOf is_hash (join_target h (some p))
  pub not_empty : join_target h (some p) ≢ []

-- The connection can be written down: by its name where it has one, else by its address.
pub record IsStorable (exe name : Option Str) (dst : IpAddr) (dport : ℕ) : Type 0 where
  pub path : (e : Str) → exe ≡ some e → IsPath e
  pub dest : (h : Str) → name ≡ some h → IsDest h dport
  pub address : IsDest (show_ip dst) dport
  pub parsed : parse_ip (show_ip dst) ≡ some dst

pub white-break : (c : ℕ) → is_white c ≡ false → is_break c ≡ false
unfolding is_white
white-break c h = ground arith

pub NoneOf-white-break : (s : Str) → NoneOf is_white s → NoneOf is_break s
NoneOf-white-break [] h = tt
NoneOf-white-break (c ∷ s) h = (white-break c h.0, NoneOf-white-break s h.1)

if_scoped-some {ℓ} :
    {A : Type ℓ} (v : Str) (bad : A) (good : Str → Str → A) (d e : Str)
    → split_scoped v ≡ some (d, e)
    → if_scoped v bad good ≡ good d e
unfolding if_scoped
if_scoped-some v bad good d e h = rw (h, if_scoped)

if_ip-some {ℓ} :
    {A : Type ℓ} (s : Str) (bad : A) (good : IpAddr → A) (a : IpAddr)
    → parse_ip s ≡ some a
    → if_ip s bad good ≡ good a
unfolding if_ip
if_ip-some s bad good a h = rw (h, if_ip)

module _ ⦃u : Unicode⦄ (p : Policy) where
  -- The value of a scoped rule, and of a rule for every binary.
  abbrev scoped_value : Str → ℕ → Str → Str
  scoped_value h dport e = join_target h (some dport) ++ b'\t' ∷ e

  pub IsTrimmed-scoped_value :
      (h : Str) (dport : ℕ) (e : Str)
      → IsDest h dport
      → IsPath e
      → IsTrimmed (scoped_value h dport e)
  IsTrimmed-scoped_value h dport e d x =
      IsTrimmed-pair (join_target h (some dport)) b'\t' e d.not_empty
        (join_target-word h dport d.spelled.word) x.trimmed

  split_scoped-value :
      (h : Str) (dport : ℕ) (e : Str)
      → IsDest h dport
      → IsPath e
      → split_scoped (scoped_value h dport e) ≡ some (join_target h (some dport), e)
  unfolding is_white
  split_scoped-value h dport e d x =
      split_scoped-pair (join_target h (some dport)) b'\t' e d.not_empty
        (join_target-word h dport d.spelled.word) refl x.trimmed

  pub apply-allow_host_from :
      (h : Str) (dport : ℕ) (e : Str)
      → IsDest h dport
      → IsPath e
      → apply_directive (directive (codes "allow-host-from")) p (scoped_value h dport e)
        ≡ record p { allow_host_from = insert (e, to_lowercase h, some dport) p.allow_host_from }
  unfolding directive apply_directive
  apply-allow_host_from h dport e d x =
      if_scoped-some _ _ _ _ _ (split_scoped-value h dport e d x)
      ∙ rw (split_target-join_target h dport d.spelled)

  pub apply-allow_dest_from :
      (dst : IpAddr) (dport : ℕ) (e : Str)
      → IsDest (show_ip dst) dport
      → IsPath e
      → parse_ip (show_ip dst) ≡ some dst
      → apply_directive (directive (codes "allow-dest-from")) p (scoped_value (show_ip dst) dport e)
        ≡ record p { allow_dest_from = insert (e, dst, some dport) p.allow_dest_from }
  unfolding directive apply_directive
  apply-allow_dest_from dst dport e d x parsed =
      if_scoped-some _ _ _ _ _ (split_scoped-value (show_ip dst) dport e d x)
      ∙ rw (split_target-join_target (show_ip dst) dport d.spelled) (if_ip-some _ _ _ _ parsed)

  pub apply-allow_host :
      (h : Str) (dport : ℕ)
      → IsDest h dport
      → apply_directive (directive (codes "allow-host")) p (join_target h (some dport))
        ≡ record p { allow_host = insert (to_lowercase h, some dport) p.allow_host }
  unfolding directive apply_directive
  apply-allow_host h dport d = rw (split_target-join_target h dport d.spelled)

  pub apply-allow_dest :
      (dst : IpAddr) (dport : ℕ)
      → IsDest (show_ip dst) dport
      → parse_ip (show_ip dst) ≡ some dst
      → apply_directive (directive (codes "allow-dest")) p (join_target (show_ip dst) (some dport))
        ≡ record p { allow_dest = insert (dst, some dport) p.allow_dest }
  unfolding directive apply_directive
  apply-allow_dest dst dport d parsed =
      rw (split_target-join_target (show_ip dst) dport d.spelled) (if_ip-some _ _ _ _ parsed)

  pub apply-deny_host_from :
      (h : Str) (dport : ℕ) (e : Str)
      → IsDest h dport
      → IsPath e
      → apply_directive (directive (codes "deny-host-from")) p (scoped_value h dport e)
        ≡ record p { deny_host_from = insert (e, to_lowercase h, some dport) p.deny_host_from }
  unfolding directive apply_directive
  apply-deny_host_from h dport e d x =
      if_scoped-some _ _ _ _ _ (split_scoped-value h dport e d x)
      ∙ rw (split_target-join_target h dport d.spelled)

  pub apply-deny_dest_from :
      (dst : IpAddr) (dport : ℕ) (e : Str)
      → IsDest (show_ip dst) dport
      → IsPath e
      → parse_ip (show_ip dst) ≡ some dst
      → apply_directive (directive (codes "deny-dest-from")) p (scoped_value (show_ip dst) dport e)
        ≡ record p { deny_dest_from = insert (e, dst, some dport) p.deny_dest_from }
  unfolding directive apply_directive
  apply-deny_dest_from dst dport e d x parsed =
      if_scoped-some _ _ _ _ _ (split_scoped-value (show_ip dst) dport e d x)
      ∙ rw (split_target-join_target (show_ip dst) dport d.spelled) (if_ip-some _ _ _ _ parsed)

  pub apply-deny_host :
      (h : Str) (dport : ℕ)
      → IsDest h dport
      → apply_directive (directive (codes "deny-host")) p (join_target h (some dport))
        ≡ record p { deny_host = insert (to_lowercase h, some dport) p.deny_host }
  unfolding directive apply_directive
  apply-deny_host h dport d = rw (split_target-join_target h dport d.spelled)

  pub apply-deny_dest :
      (dst : IpAddr) (dport : ℕ)
      → IsDest (show_ip dst) dport
      → parse_ip (show_ip dst) ≡ some dst
      → apply_directive (directive (codes "deny-dest")) p (join_target (show_ip dst) (some dport))
        ≡ record p { deny_dest = insert (dst, some dport) p.deny_dest }
  unfolding directive apply_directive
  apply-deny_dest dst dport d parsed =
      rw (split_target-join_target (show_ip dst) dport d.spelled) (if_ip-some _ _ _ _ parsed)
