-- ===== src/Config/Laws.antt =====
-- What a configuration that was loaded looks like, and what `cfg_get` finds in it.
use distributed_software_upd.Prelude.{
  take_self, ◌≤◌, ◌<◌, ◌≡◌, refl, ◌⊎◌, inl, inr, false, ◌||◌, Option, none, some, List, [], ◌∷◌,
  ◌++◌, CString, leb, ◌==◌, if◌then◌else◌, length, length-append, str_eq, str_eq_iff, is_empty,
  split_at, cut_line, copy_str, arith, Bool-cases, Option-cases, read_lines, >>=-eq-some,
}
use distributed_software_upd.Config.{
  Entry, Cfg, File, config_max_entries, max_key_len, max_value_len, find_entry, cfg_set, set_pair,
  load_text, load_line, load_lines, cfg_load, trim_ascii,
}

-- No key stands twice.
abbrev pub Distinct : Cfg → Type 0
Distinct [] = Unit {0}
Distinct (e ∷ cfg) = (find_entry e.key cfg ≡ none) × Distinct cfg

-- Every key is a non-empty text that fits its array, and every value fits its own.
abbrev pub Fits : Cfg → Type 0
Fits [] = Unit {0}
Fits (e ∷ cfg) =
    ((0 < length e.key) × (length e.key < max_key_len) × (length e.value < max_value_len))
    × Fits cfg

pub record IsCfg (cfg : Cfg) : Type 0 where
  pub distinct : Distinct cfg
  pub fits : Fits cfg
  pub bounded : length cfg ≤ config_max_entries

find_entry-append :
    (cfg : Cfg) (e : Entry) (key : CString)
    → find_entry key (cfg ++ e ∷ []) ≡ elim (find_entry key cfg) [
      | none ↦ if str_eq e.key key then some e.value else none
      | some v ↦ some v
    ]
unfolding find_entry
find_entry-append [] e key = ground arith
find_entry-append (q ∷ cfg) e key = ground (arith, find_entry-append cfg e key)

append-Distinct :
    (cfg : Cfg) (e : Entry) → Distinct cfg → find_entry e.key cfg ≡ none → Distinct (cfg ++ e ∷ [])
unfolding find_entry
append-Distinct [] e d h = (refl, tt)
append-Distinct (q ∷ cfg) e d h = elim (Bool-cases (str_eq q.key e.key)) [
  | inl t ↦ absurd (ground arith)
  | inr t ↦
      let h' : find_entry e.key cfg ≡ none = ground arith in
      (
        rw (find_entry-append cfg e q.key, d.0)
            (ground (arith, str_eq_iff q.key e.key, str_eq_iff e.key q.key)),
        append-Distinct cfg e d.1 h',
      )
]

append-Fits :
    (cfg : Cfg) (e : Entry)
    → Fits cfg
    → 0 < length e.key
    → length e.key < max_key_len
    → length e.value < max_value_len
    → Fits (cfg ++ e ∷ [])
append-Fits [] e f p q r = ((p, q, r), tt)
append-Fits (x ∷ cfg) e f p q r = (f.0, append-Fits cfg e f.1 p q r)

-- What `cfg_set` adds, at the end.
cfg_set-some :
    (cfg next : Cfg) (key value : CString)
    → cfg_set cfg key value ≡ some next
    → (find_entry key cfg ≡ none)
      × (length cfg < config_max_entries)
      × (next
          ≡ cfg
            ++ record { key = copy_str max_key_len key; value = copy_str max_value_len value } ∷ [])
unfolding cfg_set
cfg_set-some cfg next key value h = elim (Option-cases (find_entry key cfg)) [
  | inl e ↦ ground arith
  | inr (v, e) ↦ ground arith
]

cfg_set-IsCfg :
    (cfg next : Cfg) (key value : CString)
    → IsCfg cfg
    → 0 < length key
    → length key < max_key_len
    → length value < max_value_len
    → cfg_set cfg key value ≡ some next
    → IsCfg next
cfg_set-IsCfg cfg next key value c p q r h =
    let (fresh, room, e) = cfg_set-some cfg next key value h in
    let k = take_self 63 key (omega arith) in
    let v = take_self 255 value (omega arith) in
    rw (e, k, v)
      (record {
        distinct = append-Distinct cfg (record { key = key; value = value }) c.distinct fresh;
        fits = append-Fits cfg (record { key = key; value = value }) c.fits p q r;
        bounded = omega (arith, length-append cfg (record { key = key; value = value } ∷ []));
      })

nonempty-pos : (s : CString) → is_empty s ≡ false → 0 < length s
nonempty-pos [] h = cc
nonempty-pos (c ∷ s) h = omega arith

set_pair-IsCfg :
    (cfg next : Cfg) (key value : CString)
    → IsCfg cfg
    → set_pair cfg key value ≡ some next
    → IsCfg next
set_pair-IsCfg cfg next key value c h = elim (Bool-cases (is_empty key)) [
  | inl e ↦ absurd (ground arith)
  | inr e ↦
      let t : leb max_key_len (length key) || leb max_value_len (length value) ≡ false =
        ground arith in
      cfg_set-IsCfg cfg next key value c (nonempty-pos key e) (ground arith) (ground arith)
        (ground arith)
]

load_text-IsCfg :
    (cfg next : Cfg) (s : CString) → IsCfg cfg → load_text cfg s ≡ some next → IsCfg next
load_text-IsCfg cfg next [] c h = let e : cfg ≡ next = ground arith in rw (← e) c
load_text-IsCfg cfg next (x ∷ s) c h = elim (Bool-cases (x == b'#')) [
  | inl t ↦ let e : cfg ≡ next = ground arith in rw (← e) c
  | inr t ↦ elim (Option-cases (split_at b'=' (x ∷ s))) [
    | inl n ↦ absurd (ground arith)
    | inr ((key, value), n) ↦
        set_pair-IsCfg cfg next (trim_ascii key) (trim_ascii value) c (ground arith)
  ]
]

load_lines-IsCfg :
    (cfg next : Cfg) (lines : List CString)
    → IsCfg cfg
    → load_lines cfg lines ≡ some next
    → IsCfg next
unfolding load_lines load_line
load_lines-IsCfg cfg next [] c h = let e : cfg ≡ next = ground arith in rw (← e) c
load_lines-IsCfg cfg next (l ∷ ls) c h = elim (Option-cases (load_line cfg l)) [
  | inl n ↦ absurd (ground arith)
  | inr (mid, n) ↦
      load_lines-IsCfg mid next ls (load_text-IsCfg cfg mid (trim_ascii (cut_line l)) c n)
        (ground arith)
]

-- A configuration that `cfg_load` accepts has no key twice, has 256 entries at most, and its keys
-- are non-empty and fit their arrays, as the values do.
pub cfg_load-IsCfg : (f : Option File) {cfg : Cfg} → cfg_load f ≡ some cfg → IsCfg cfg
unfolding cfg_load
cfg_load-IsCfg none h = cc
cfg_load-IsCfg (some f) {cfg} h =
    let (mid, p, q) = >>=-eq-some (load_lines [] (read_lines 1023 f.text)) _ h in
    let e : mid ≡ cfg = ground arith in
    rw (← e) (
      load_lines-IsCfg [] mid (read_lines 1023 f.text)
        (record { distinct = tt; fits = tt; bounded = omega arith }) p)

-- `cfg_set` adds the one key with its value: every other key keeps the value that it had, and it
-- fails exactly on a key that is there and on a full table.
pub cfg_set_lem :
    (cfg : Cfg) (key value : CString)
    → length key < max_key_len
    → length value < max_value_len
    → ((cfg_set cfg key value ≡ none)
        × ((config_max_entries ≤ length cfg) ⊎ ((v : CString) × (find_entry key cfg ≡ some v))))
      ⊎ ((next : Cfg) × (cfg_set cfg key value ≡ some next)
          × ((j : CString)
              → find_entry j next ≡ (if str_eq key j then some value else find_entry j cfg)))
unfolding cfg_set
cfg_set_lem cfg key value p q = elim (Option-cases (find_entry key cfg)) [
  | inr (v, e) ↦ inl (rw (e, cfg_set) refl, inr (v, e))
  | inl e ↦ elim (Bool-cases (leb config_max_entries (length cfg))) [
    | inl t ↦ inl (rw (e, cfg_set, t, if◌then◌else◌) refl, inl (ground arith))
    | inr t ↦
        let k = take_self 63 key (omega arith) in
        let v = take_self 255 value (omega arith) in
        inr (
          cfg ++ record { key = key; value = value } ∷ [],
          rw (e, cfg_set, t, if◌then◌else◌, k, v) refl,
          λ j.
              rw (find_entry-append cfg (record { key = key; value = value }) j)
                (ground (arith, str_eq_iff key j)),
        )
  ]
]
