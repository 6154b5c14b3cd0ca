-- ===== src/Updater/Policy/Laws.antt =====
-- What a resolved policy says.
use openwatch.Base.{
  ◌≡◌, refl, ◌↔◌, ◌⊎◌, inl, inr, Bool, true, false, some, arith, if◌then◌else◌, Option-cases,
  Bool-cases,
}
use openwatch.Base.Text.{Text, equal_fold, trim_space}
use openwatch.Base.Assoc.{lookup}
use openwatch.Base.Numbers.{ℤ, pos, negsuc, non_positive, non_negative, atoi}
use openwatch.Config.{Config, default_stop_timeout}
use openwatch.Docker.{Container}
use openwatch.Docker.Labels.{label_enable, label_stop_timeout, label_value_true, label_value_false}
use openwatch.Updater.Policy.{label_is, resolve_enable, timeout_label, resolve_policy}

-- The container carries the label with the value, up to case.
abbrev pub Carries : Container → Text → Text → Type 0
Carries c label value = (v : Text) × (lookup label c.labels ≡ some v) × (equal_fold v value ≡ true)

label_is-Carries :
    (c : Container) (label value : Text)
    → (label_is value (lookup label c.labels) ≡ true) ↔ Carries c label value
unfolding label_is
label_is-Carries c label value = elim (Option-cases (lookup label c.labels)) [
  | inl p ↦ (λ h. ground (arith, p), λ (v, q, _). cc (p, q))
  | inr (v, p) ↦
      (λ h. (v, p, ground (arith, p)), λ (w, q, k). let same : v ≡ w = cc (p, q) in rw (p, same) k)
]

resolve_enable-skip :
    (off on opt_in : Bool)
    → ((resolve_enable off on opt_in).0 ≡ true) ↔ ((off ≡ true) ⊎ ((opt_in ≡ true) × (on ≡ false)))
unfolding resolve_enable
resolve_enable-skip off on opt_in = ground arith

-- A container is skipped exactly when its enable label says false, or when the configuration asks
-- for an opt-in and no enable label says true; case does not matter.
pub skip_iff :
    (cfg : Config) (c : Container)
    → ((resolve_policy cfg c).skip ≡ true) ↔ (
        Carries c label_enable label_value_false
        ⊎ ((cfg.label_enable ≡ true) × (¬ Carries c label_enable label_value_true)))
unfolding resolve_policy
skip_iff cfg c =
    let off = label_is-Carries c label_enable label_value_false in
    let on = label_is-Carries c label_enable label_value_true in
    let skip =
      resolve_enable-skip (label_is label_value_false (lookup label_enable c.labels))
        (label_is label_value_true (lookup label_enable c.labels)) cfg.label_enable in
    (
      λ h. elim (skip.0 h) [ inl e ↦ inl (off.0 e) | inr (o, e) ↦ inr (o, λ k. cc (on.1 k, e)) ],
      λ h. skip.1 (elim h [
        | inl k ↦ inl (off.1 k)
        | inr (o, k) ↦ inr (
          o,
          elim (Bool-cases (label_is label_value_true (lookup label_enable c.labels))) [
            | inl e ↦ absurd (k (on.0 e))
            | inr e ↦ e
          ],
        )
      ]),
    )

abbrev pub IsNonNegative : ℤ → Type 0
IsNonNegative n = non_negative n ≡ true

IsNonNegative-default : (n : ℤ) → IsNonNegative (if non_positive n then default_stop_timeout else n)
IsNonNegative-default (pos n) = ground arith
IsNonNegative-default (negsuc n) = refl

-- The stop timeout of a resolved policy is not negative, whatever the configuration and the label
-- say.
pub stop_timeout-IsNonNegative :
    (cfg : Config) (c : Container) → IsNonNegative (resolve_policy cfg c).stop_timeout_sec
unfolding resolve_policy timeout_label
stop_timeout-IsNonNegative cfg c = elim (Option-cases (lookup label_stop_timeout c.labels)) [
  | inl p ↦ rw p (IsNonNegative-default cfg.stop_timeout)
  | inr (v, p) ↦ rw p (elim (Option-cases (atoi (trim_space v))) [
    | inl q ↦ rw q (IsNonNegative-default cfg.stop_timeout)
    | inr (n, q) ↦ rw q (elim (Bool-cases (non_negative n)) [
      | inl k ↦ rw k k
      | inr k ↦ rw k (IsNonNegative-default cfg.stop_timeout)
    ])
  ])
]
