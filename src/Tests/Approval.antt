-- ===== src/Tests/Approval.antt =====
-- An approved binary is pinned, and replaced later.
use pfsnitch.Base.{false, some, none, ◌≡◌, refl, arith, inr, ◌==◌, list_eq, nat_eq, lookup, put}
use pfsnitch.Daemon.Answers.{pin}
use pfsnitch.Daemon.Pinned.{differs, check_binary-pin}
use pfsnitch.Daemon.{World, Daemon, check_binary}
use pfsnitch.Identity.{hash, cached, store, room, fresh}
use pfsnitch.Policy.Load.Lines.{IsTrimmed-word}
use pfsnitch.Policy.Load.{load}
use pfsnitch.Policy.Record.Persist.Apply.{IsPath}
use pfsnitch.Policy.Record.Persist.Pinned.{IsHash}
use pfsnitch.Policy.Record.{expected_id}
use pfsnitch.Policy.{enforcement}
use pfsnitch.Tests.Daemon.{world, in_mode}
use pfsnitch.Tests.{ascii}
use pfsnitch.Text.{
  Str, codes, is_white, is_empty, trim, trim_start, trim_end, trim_onto, to_lowercase,
}

abbrev binary : Str
binary = codes "/bin/curl"

binary-IsPath : IsPath binary
unfolding is_white
binary-IsPath = record {
  trimmed = IsTrimmed-word binary (λ e. cc) (ground arith);
  no_hash = ground arith;
  no_break = ground arith;
}

ab-IsHash : IsHash (codes "ab")
unfolding is_white
ab-IsHash = record { not_empty = λ e. cc; word = ground arith; no_hash = ground arith }

-- The binary as it is approved, and as it is later.
abbrev hashes_to : Str → World
hashes_to h = record world {
  metadata = λ p. some (record { mtime = 1; size = 2 });
  sha256 = λ p. some h;
}

abbrev restarted : Daemon
restarted = record (in_mode enforcement) {
  pol = load (pin (hashes_to (codes "ab\n")) binary none (in_mode enforcement)).1;
}

check_binary-pin_example :
    ((check_binary (hashes_to (codes "cd\n")) binary restarted).0
      ≡ differs
          (hash restarted.ident binary
            ((hashes_to (codes "cd\n")).metadata binary)
            ((hashes_to (codes "cd\n")).sha256 binary)).0
          (to_lowercase (codes "ab")))
    × ((j : Str)
        → (binary == j) ≡ false
        → expected_id restarted.pol j ≡ expected_id (in_mode enforcement).pol j)
unfolding hash cached store room fresh lookup put trim trim_start trim_end trim_onto is_white
    is_empty load
check_binary-pin_example =
    check_binary-pin (hashes_to (codes "ab\n")) (hashes_to (codes "cd\n")) (in_mode enforcement)
      restarted binary (codes "ab") refl refl refl ab-IsHash binary-IsPath refl (inr refl)
