-- ===== src/Config.antt =====
-- Project_3/Project_3/src/common/config.c: files of KEY=VALUE lines. What the functions print on an error is left out.
pub mod Laws
pub mod Numbers
mod Tests
use distributed_software_upd.Prelude.{
  ℕ, zero, suc, ◌+◌, ◌-◌, ◌%◌, ◌^◌, Bool, true, false, ◌||◌, Option, none, some, List, [], ◌∷◌,
  ◌++◌, CString, codes, ℤ, pos, negsuc, ltb, leb, ltb_ℤ, ◌==◌, if◌then◌else◌, length, str_eq,
  str_case_eq, is_empty, split_at, cut_line, strip_leading, strip_trailing, copy_str, strtol,
  strtoull, read_lines, ◌>>=◌,
}

-- `cfg_entry_t`
pub record Entry : Type 0 where
  pub key : CString
  pub value : CString

-- `cfg_t`: the entries below `count`, in order.
abbrev pub Cfg : Type 0
Cfg = List Entry

abbrev pub config_max_entries : ℕ
config_max_entries = 256

abbrev pub max_key_len : ℕ
max_key_len = 64

abbrev pub max_value_len : ℕ
max_value_len = 256

unfoldable pub trim_ascii : CString → CString
trim_ascii s = strip_trailing (strip_leading s)

unfoldable pub find_entry : CString → Cfg → Option CString
find_entry key [] = none
find_entry key (e ∷ cfg) = if str_eq e.key key then some e.value else find_entry key cfg

abbrev put_entry : Cfg → CString → CString → Option Cfg
put_entry cfg key value =
    if leb config_max_entries (length cfg)
    then none
    else some (
        cfg ++ record { key = copy_str max_key_len key; value = copy_str max_value_len value } ∷ [])

-- `none` is the return of -1: the key is there already, or the table is full.
unfoldable pub cfg_set : Cfg → CString → CString → Option Cfg
unfolding find_entry
cfg_set cfg key value = elim (find_entry key cfg) [ some _ ↦ none | none ↦ put_entry cfg key value ]

abbrev set_pair : Cfg → CString → CString → Option Cfg
set_pair cfg key value =
    if is_empty key || leb max_key_len (length key) || leb max_value_len (length value)
    then none
    else cfg_set cfg key value

abbrev load_text : Cfg → CString → Option Cfg
load_text cfg [] = some cfg
load_text cfg (c ∷ s) = if c == b'#' then some cfg else elim (split_at b'=' (c ∷ s)) [
  | none ↦ none
  | some (key, value) ↦ set_pair cfg (trim_ascii key) (trim_ascii value)
]

-- One round of the loop of `cfg_load`.
unfoldable pub load_line : Cfg → CString → Option Cfg
unfolding cfg_set trim_ascii
load_line cfg line = load_text cfg (trim_ascii (cut_line line))

unfoldable pub load_lines : Cfg → List CString → Option Cfg
unfolding load_line
load_lines cfg [] = some cfg
load_lines cfg (l ∷ ls) = elim (load_line cfg l) [ none ↦ none | some next ↦ load_lines next ls ]

-- A file that can be opened: its text as far as it can be read, and whether `ferror` is set then.
pub record File : Type 0 where
  pub text : CString
  pub failed : Bool

unfoldable pub cfg_load : Option File → Option Cfg
unfolding load_lines
cfg_load none = none
cfg_load (some f) = do
  cfg ← load_lines [] (read_lines 1023 f.text)
  if f.failed then none else some cfg

-- `none` is NULL.
unfoldable pub cfg_get : Cfg → CString → Option CString → Option CString
unfolding find_entry
cfg_get cfg key fallback = elim (find_entry key cfg) [ none ↦ fallback | some v ↦ some v ]

-- `(int)v` of a long.
abbrev signed32 : ℕ → ℤ
signed32 w = if ltb w (2 ^ 31) then pos w else negsuc (2 ^ 32 - 1 - w)

abbrev pub to_int : ℤ → ℤ
to_int (pos n) = signed32 (n % 2 ^ 32)
to_int (negsuc n) = signed32 (2 ^ 32 - 1 - n % 2 ^ 32)

abbrev int_or : ℤ → ℤ × CString → ℤ
int_or fallback (v, []) = to_int v
int_or fallback (v, _ ∷ _) = fallback

abbrev parse_int : ℤ → CString → ℤ
parse_int fallback s = if is_empty s then fallback else int_or fallback (strtol s)

unfoldable pub cfg_get_int : Cfg → CString → ℤ → ℤ
unfolding cfg_get
cfg_get_int cfg key fallback = elim (cfg_get cfg key none) [
  | none ↦ fallback
  | some s ↦ parse_int fallback s
]

-- The number is read whole, and lies between `lo` and `hi`.
abbrev pub in_range : ℤ → ℤ → ℤ × CString → Option ℤ
in_range lo hi (v, []) = if ltb_ℤ v lo || ltb_ℤ hi v then none else some (to_int v)
in_range lo hi (v, _ ∷ _) = none

abbrev pub range_value : ℤ → ℤ → ℤ → Option CString → Option ℤ
range_value fallback lo hi none = some fallback
range_value fallback lo hi (some s) = if is_empty s then none else in_range lo hi (strtol s)

unfoldable pub cfg_get_int_range : Cfg → CString → ℤ → ℤ → ℤ → Option ℤ
unfolding cfg_get
cfg_get_int_range cfg key fallback lo hi =
    if ltb_ℤ hi lo || ltb_ℤ fallback lo || ltb_ℤ hi fallback
    then none
    else range_value fallback lo hi (cfg_get cfg key none)

abbrev u64_or : ℕ → ℕ × CString → ℕ
u64_or fallback (v, []) = v
u64_or fallback (v, _ ∷ _) = fallback

abbrev parse_u64 : ℕ → CString → ℕ
parse_u64 fallback s = if is_empty s then fallback else u64_or fallback (strtoull s)

unfoldable pub cfg_get_u64 : Cfg → CString → ℕ → ℕ
unfolding cfg_get
cfg_get_u64 cfg key fallback = elim (cfg_get cfg key none) [
  | none ↦ fallback
  | some s ↦ parse_u64 fallback s
]

abbrev truth : Bool → CString → Bool
truth fallback s =
    if str_case_eq s (codes "1")
      || str_case_eq s (codes "true")
      || str_case_eq s (codes "yes")
      || str_case_eq s (codes "on")
    then true
    else if str_case_eq s (codes "0")
        || str_case_eq s (codes "false")
        || str_case_eq s (codes "no")
        || str_case_eq s (codes "off")
    then false
    else fallback

unfoldable pub cfg_get_bool : Cfg → CString → Bool → Bool
unfolding cfg_get
cfg_get_bool cfg key fallback = elim (cfg_get cfg key none) [
  | none ↦ fallback
  | some s ↦ truth fallback s
]

abbrev value_or : CString → Option CString → CString
value_or fallback none = fallback
value_or fallback (some s) = s

-- What `dst` holds after it, in a buffer of `dst_len` bytes.
unfoldable pub cfg_copy_str : Cfg → CString → CString → ℕ → CString
unfolding cfg_get
cfg_copy_str cfg key fallback dst_len =
    copy_str dst_len (value_or fallback (cfg_get cfg key (some fallback)))
