-- ===== src/UpdateCheck/Order.antt =====
-- `isNewer` is a strict order on versions, the lexicographic one on their three numbers.
use tab_vm.UpdateCheck.{
  Version, is_pre_release, parse_version, newer_version, newer_parsed, is_newer,
}
use tab_vm.Strings.{Text}
use tab_vm.Prelude.{
  ◌<◌, ◌≡◌, ◌↔◌, ◌⊎◌, true, false, some, arith, Bool-cases, refl, sym, ◌∙◌, inl, inr, Option, none,
}
use mathlib.Core.Bool.{false≢true}
use mathlib.Core.Option.{some-injective}
use mathlib.Core.Path.{subst}

-- `w` comes before `v` in the lexicographic order.
abbrev pub Before : Version → Version → Type 0
Before w v =
    (w.major < v.major)
    ⊎ ((w.major ≡ v.major) × ((w.minor < v.minor) ⊎ ((w.minor ≡ v.minor) × (w.patch < v.patch))))

newer_version-Before : (v w : Version) → (newer_version v w ≡ true) ↔ Before w v
unfolding newer_version
newer_version-Before v w = (λ h. ground arith, λ h. ground arith)

-- The two versions behind an answer, and the order between them.
abbrev pub IsNewer : Text → Text → Type 0
IsNewer l c =
    (v : Version) × (w : Version) × (parse_version l ≡ some v)
    × (parse_version c ≡ some w)
    × Before w v

newer_parsed-Before :
    (l c : Option Version)
    → newer_parsed l c ≡ true
    → (v : Version) × (w : Version) × (l ≡ some v) × (c ≡ some w) × Before w v
newer_parsed-Before (some v) (some w) h = (v, w, refl, refl, (newer_version-Before v w).0 h)
newer_parsed-Before (some v) none h = cc
newer_parsed-Before none _ h = cc

-- A release is offered exactly if it is no pre-release, both texts are versions, and the running
-- version comes before it in the lexicographic order of major, minor and patch.
pub is_newer_iff : (l c : Text) → (is_newer l c ≡ true) ↔ ((is_pre_release l ≡ false) × IsNewer l c)
unfolding is_newer
is_newer_iff l c = elim (Bool-cases (is_pre_release l)) [
  | inl pre ↦ (λ h. absurd (false≢true (rw pre at h)), λ r. cc (r.0, pre))
  | inr full ↦ (
    λ h. (full, newer_parsed-Before _ _ (rw full at h)),
    λ (off, (v, w, pl, pc, before)). rw (full, pl, pc) ((newer_version-Before v w).1 before),
  )
]

Before-trans : (u v w : Version) → Before u v → Before v w → Before u w
Before-trans u v w h k = ground arith

Before-irrefl : (v : Version) → ¬ Before v v
Before-irrefl v h = ground arith

parse_version_unique :
    (b : Text) {v w : Version} → parse_version b ≡ some v → parse_version b ≡ some w → v ≡ w
parse_version_unique b {v} {w} p q = some-injective v w (sym p ∙ q)

-- The relation is transitive: if `a` is offered to `b` and `b` to `c`, then `a` is offered to `c`.
pub is_newer_trans :
    (a b c : Text) → is_newer a b ≡ true → is_newer b c ≡ true → is_newer a c ≡ true
is_newer_trans a b c h k =
    let (full, (v, w, pa, pb, before)) = (is_newer_iff a b).0 h in
    let (_, (w', u, pb', pc, before')) = (is_newer_iff b c).0 k in
    let same = parse_version_unique b pb' pb in
    (is_newer_iff a c).1
      (full, (v, u, pa, pc, Before-trans u w v (subst (Before u) same before') before))

-- Of two releases at most one is newer than the other; in particular none is newer than itself.
pub is_newer_asymm : (a b : Text) → is_newer a b ≡ true → is_newer b a ≡ false
is_newer_asymm a b h = elim (Bool-cases (is_newer b a)) [
  | inl k ↦
      let (_, (v, w, pa, pa', before)) = (is_newer_iff a a).0 (is_newer_trans a b a h k) in
      absurd (Before-irrefl v (subst (λ x. Before x v) (parse_version_unique a pa' pa) before))
  | inr no_other ↦ no_other
]
