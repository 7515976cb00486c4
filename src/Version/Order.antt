-- ===== src/Version/Order.antt =====
-- `ver_compare` is a linear order, the lexicographic one.
use distributed_software_upd.Prelude.{◌<◌, ◌≡◌, ◌↔◌, ◌⊎◌, pos, negsuc, arith}
use distributed_software_upd.Version.{SemVer, ver_compare}

-- `a` comes before `b`: its first part that differs is the smaller one.
abbrev pub Older : SemVer → SemVer → Type 0
Older a b =
    (a.major < b.major)
    ⊎ ((a.major ≡ b.major) × (a.minor < b.minor))
    ⊎ ((a.major ≡ b.major) × (a.minor ≡ b.minor) × (a.patch < b.patch))

-- `ver_compare` returns -1 exactly on an older first version, 1 exactly on a newer one, and 0
-- exactly on equal versions.
pub ver_compare_lem :
    (a b : SemVer)
    → ((ver_compare a b ≡ negsuc 0) ↔ Older a b)
      × ((ver_compare a b ≡ pos 1) ↔ Older b a)
      × ((ver_compare a b ≡ pos 0) ↔ (a ≡ b))
unfolding ver_compare
ver_compare_lem a b = (
  (λ h. ground arith, λ h. ground arith),
  (λ h. ground arith, λ h. ground arith),
  (λ h. ground arith, λ h. ground arith),
)

-- The order of versions is transitive.
pub ver_compare_trans :
    (a b c : SemVer)
    → ver_compare a b ≡ negsuc 0
    → ver_compare b c ≡ negsuc 0
    → ver_compare a c ≡ negsuc 0
ver_compare_trans a b c h k = (ver_compare_lem a c).0.1 older
  where
    p : Older a b
    p = (ver_compare_lem a b).0.0 h

    q : Older b c
    q = (ver_compare_lem b c).0.0 k

    older : Older a c
    older = ground (arith, p, q)
