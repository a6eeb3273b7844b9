-- ===== src/Policy.antt =====
-- src/policy.rs: the types of a policy.
pub mod Target
pub mod Decide
pub mod Load
pub mod Record
pub mod Manage
use pfsnitch.Addr.{IpAddr}
use pfsnitch.Base.{
  ℕ, Bool, true, false, List, [], Option, none, some, ◌==◌, list_eq, nat_eq, if◌then◌else◌, ◌||◌,
  ◌∷◌, unwrap_or,
}
use pfsnitch.Text.{Str, codes, trim, is_empty, Unicode, to_lowercase}

pub data Verdict : Type 0 where
  allow deny ask : Verdict

pub data Answer : Type 0 where
  allow_conn allow_app block block_app timeout : Answer

-- Where a recorded rule came from.
pub data Origin : Type 0 where
  approved learned : Origin

pub data Mode : Type 0 where
  visibility enforcement : Mode

pub data AttributionMode : Type 0 where
  procstat kernel : AttributionMode

-- A host or an address as written, and a port; no port is any port.
abbrev pub Target : Type 0
Target = Str × Option ℕ

abbrev pub DestTarget : Type 0
DestTarget = IpAddr × Option ℕ

abbrev pub HostFrom : Type 0
HostFrom = Str × Str × Option ℕ

abbrev pub DestFrom : Type 0
DestFrom = Str × IpAddr × Option ℕ

pub record Policy : Type 0 where
  pub default : Option Verdict
  pub allow_app : List Str
  pub deny_app : List Str
  pub allow_host : List Target
  pub deny_host : List Target
  pub allow_dest : List DestTarget
  pub deny_dest : List DestTarget
  pub allow_host_from : List HostFrom
  pub allow_dest_from : List DestFrom
  pub deny_host_from : List HostFrom
  pub deny_dest_from : List DestFrom
  pub prompt : Option Str
  pub app_id : List (Str × Str)
  pub mode : Option Mode
  pub attribution : Option AttributionMode

-- `Policy { default: Some(Verdict::Ask), ..Default::default() }`
abbrev pub initial : Policy
initial = record {
  default = some ask;
  allow_app = [];
  deny_app = [];
  allow_host = [];
  deny_host = [];
  allow_dest = [];
  deny_dest = [];
  allow_host_from = [];
  allow_dest_from = [];
  deny_host_from = [];
  deny_dest_from = [];
  prompt = none;
  app_id = [];
  mode = none;
  attribution = none;
}

-- `Answer::parse`
unfoldable pub parse_answer : Str → Option Answer
parse_answer s =
    let t = trim s in
    if t == codes "allow-conn"
    then some allow_conn
    else if t == codes "allow-app"
    then some allow_app
    else if t == codes "block-conn" || t == codes "block"
    then some block
    else if t == codes "block-app"
    then some block_app
    else if t == codes "timeout"
    then some timeout
    else none

module _ ⦃u : Unicode⦄ where
  -- `Mode::parse`
  unfoldable pub parse_mode : Str → Option Mode
  parse_mode s =
      let t = to_lowercase (trim s) in
      if t == codes "visibility" || t == codes "listen" || t == codes "observe"
      then some visibility
      else if t == codes "enforcement" || t == codes "enforce"
      then some enforcement
      else none

  -- `AttributionMode::parse`
  unfoldable pub parse_attribution : Str → Option AttributionMode
  parse_attribution s =
      let t = to_lowercase (trim s) in
      if t == codes "procstat" || t == codes "userspace"
      then some procstat
      else if t == codes "kernel"
      then some kernel
      else none

-- `Mode::as_str`
unfoldable pub show_mode : Mode → Str
show_mode visibility = codes "visibility"
show_mode enforcement = codes "enforcement"

-- `AttributionMode::as_str`
unfoldable pub show_attribution : AttributionMode → Str
show_attribution procstat = codes "procstat"
show_attribution kernel = codes "kernel"

-- `Mode::enforcing`
unfoldable pub enforcing : Mode → Bool
enforcing visibility = false
enforcing enforcement = true

-- `Origin::adjective`
unfoldable pub adjective : Origin → Str
adjective approved = codes "approved"
adjective learned = codes "learned"

-- `Policy::prompt_bin`, with the variable PFSNITCH_PROMPT if it is set.
unfoldable pub prompt_bin : Policy → Option Str → Str → Str
prompt_bin p variable fallback = elim variable [
  | some v ↦ if is_empty v then unwrap_or p.prompt fallback else v
  | none ↦ unwrap_or p.prompt fallback
]

-- `Policy::mode` and `Policy::attribution`
unfoldable pub mode_of : Policy → Mode → Mode
mode_of p fallback = unwrap_or p.mode fallback

unfoldable pub attribution_of : Policy → AttributionMode
attribution_of p = unwrap_or p.attribution procstat
