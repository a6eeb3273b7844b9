-- ===== src/Kernattr.antt =====
-- src/kernattr.rs: the client of /dev/pfsnitch. The kernel is a parameter: what it answers to each
-- ioctl and to each read. An open device is its flag `dead`; the descriptor itself is not needed.
pub mod Calls
pub mod Push
use Prim.Native.Nat.{bit_and, bit_or}
use pfsnitch.Addr.{IpAddr, v4, v6}
use pfsnitch.Base.{
  ℕ, zero, suc, ◌+◌, ◌-◌, ◌*◌, ◌/◌, ◌^◌, Bool, true, false, not, ◌&&◌, ◌||◌, List, [], ◌∷◌, ◌++◌,
  Option, none, some, if◌then◌else◌, ◌==◌, nat_eq, length, take, leb, ◌>>=◌,
}
use pfsnitch.Divert.Rst.{bytes16}
use pfsnitch.Divert.{be16}
use pfsnitch.Procinfo.{Tuple, Owner, Attribution, kernel}
use pfsnitch.Text.Bytes.{as_bytes}
use pfsnitch.Text.{Str, codes, is_empty, split_first, Unicode, from_utf8_lossy}

abbrev pub attr_version : ℕ
attr_version = 1

abbrev pub miss : ℕ
miss = 0

abbrev pub v_allow : ℕ
v_allow = 1

abbrev pub v_deny : ℕ
v_deny = 2

-- The structures of kmod/pfsnitch_ioctl.h, without their padding. A port is its two bytes in
-- network order, and an array of bytes a list.
pub record PfsnitchAttr : Type 0 where
  pub version : ℕ
  pub af : ℕ
  pub proto : ℕ
  pub lport : List ℕ
  pub fport : List ℕ
  pub laddr : List ℕ
  pub faddr : List ℕ
  pub found : ℕ
  pub pid : ℕ
  pub uid : ℕ
  pub comm : List ℕ
  pub path : List ℕ

pub record PfsnitchVerdict : Type 0 where
  pub version : ℕ
  pub af : ℕ
  pub proto : ℕ
  pub fport : List ℕ
  pub faddr : List ℕ
  pub verdict : ℕ
  pub path : List ℕ

pub record PfsnitchEvent : Type 0 where
  pub id : ℕ
  pub af : ℕ
  pub proto : ℕ
  pub fport : List ℕ
  pub faddr : List ℕ
  pub nonblock : ℕ
  pub pid : ℕ
  pub uid : ℕ
  pub path : List ℕ

pub record PfsnitchResolve : Type 0 where
  pub version : ℕ
  pub verdict : ℕ
  pub id : ℕ

pub record KernEvent : Type 0 where
  pub id : ℕ
  pub proto : ℕ
  pub dst : IpAddr
  pub dport : ℕ
  pub nonblock : Bool
  pub pid : ℕ
  pub uid : ℕ
  pub path : Str

-- `#[repr(C)]`: the fields as their sizes and alignments, padding fields included.
abbrev pub Layout : Type 0
Layout = List (ℕ × ℕ)

abbrev pub bytes : ℕ → ℕ × ℕ
bytes n = (n, 1)

abbrev pub u16 : ℕ × ℕ
u16 = (2, 2)

abbrev pub u32 : ℕ × ℕ
u32 = (4, 4)

abbrev pub u64 : ℕ × ℕ
u64 = (8, 8)

unfoldable pub attr_layout : Layout
attr_layout =
    u32
    ∷ bytes 1
    ∷ bytes 1
    ∷ u16
    ∷ u16
    ∷ bytes 2
    ∷ bytes 16
    ∷ bytes 16
    ∷ bytes 1
    ∷ bytes 3
    ∷ u32
    ∷ u32
    ∷ bytes 4
    ∷ bytes 24
    ∷ bytes 1024
    ∷ []

unfoldable pub verdict_layout : Layout
verdict_layout = u32 ∷ bytes 1 ∷ bytes 1 ∷ u16 ∷ bytes 16 ∷ bytes 1 ∷ bytes 3 ∷ bytes 1024 ∷ []

unfoldable pub event_layout : Layout
event_layout =
    u64 ∷ bytes 1 ∷ bytes 1 ∷ u16 ∷ bytes 16 ∷ bytes 1 ∷ bytes 3 ∷ u32 ∷ u32 ∷ bytes 1024 ∷ []

unfoldable pub resolve_layout : Layout
resolve_layout = u32 ∷ bytes 1 ∷ bytes 3 ∷ u64 ∷ []

abbrev pub round_up : ℕ → ℕ → ℕ
round_up n a = (n + (a - 1)) / a * a

abbrev pub larger : ℕ → ℕ → ℕ
larger a b = if leb a b then b else a

-- `size_of`, from the offset reached and the largest alignment so far.
unfoldable pub size_from : ℕ → ℕ → Layout → ℕ
size_from off al [] = round_up off al
size_from off al ((n, a) ∷ l) = size_from (round_up off a + n) (larger al a) l

unfoldable pub size_of : Layout → ℕ
size_of l = size_from 0 1 l

abbrev pub ioc_void : ℕ
ioc_void = 0x20000000

abbrev pub ioc_in : ℕ
ioc_in = 0x80000000

abbrev pub ioc_inout : ℕ
ioc_inout = 0xC0000000

unfoldable pub ioc : ℕ → ℕ → ℕ → ℕ
ioc inout num len = bit_or (bit_or (bit_or inout (bit_and len 0x1fff * 2 ^ 16)) (b'F' * 2 ^ 8)) num

unfoldable pub attr_query_cmd : ℕ
attr_query_cmd = ioc ioc_inout 1 (size_of attr_layout)

unfoldable pub verdict_push_cmd : ℕ
verdict_push_cmd = ioc ioc_in 2 (size_of verdict_layout)

unfoldable pub verdict_flush_cmd : ℕ
verdict_flush_cmd = ioc ioc_void 3 0

unfoldable pub resolve_cmd : ℕ
resolve_cmd = ioc ioc_in 4 (size_of resolve_layout)

unfoldable pub upcall_set_cmd : ℕ
upcall_set_cmd = ioc ioc_in 5 4

-- An ioctl that only sends: its command and what it points to.
pub data Arg : Type 0 where
  nothing : Arg
  verdict_arg : PfsnitchVerdict → Arg
  resolve_arg : PfsnitchResolve → Arg
  int_arg : ℕ → Arg

pub record Ioctl : Type 0 where
  pub cmd : ℕ
  pub arg : Arg

pub data Errno : Type 0 where
  enotty enxio ebadf enodev other_errno : Errno

pub data Queried : Type 0 where
  failed : Errno → Queried
  answered : PfsnitchAttr → Queried

-- The module's answers: to a query the structure it leaves, to the others an error or none.
pub record Kernel : Type 0 where
  pub query_ioctl : ℕ → PfsnitchAttr → Queried
  pub control : Ioctl → Option Errno

pub record KernAttr : Type 0 where
  pub dead : Bool

-- `KernAttr::open`, where the device can be opened.
abbrev pub opened : KernAttr
opened = record { dead = false }
