-- ===== src/Samples/Caches.antt =====
-- The keys of the limits and of the registration codes told apart, and caches in memory over them.
use mono256_sic_core.Base.{
  ℕ, Bool, true, false, ◌&&◌, String, ◌==◌, ==_refl, ==→eq, str_eq, str_eq_iff, ◌≡◌, refl, sym, ◌∙◌,
  ap, ◌↔◌, if◌then◌else◌,
}
use mono256_sic_core.Cache.{Backend}
use mono256_sic_core.Cache.Laws.{IsReliable}
use mono256_sic_core.Cache.Memory.{Memory, memory, memory-IsReliable}
use mono256_sic_core.Users.Limits.{
  Subject, LimitKey, attempts_in, failures_of, block_of, code_config,
}
use mono256_sic_core.Users.Codes.{RegistrationCodeConfig}

abbrev kind : LimitKey → ℕ
kind (attempts_in (Subject.ip_attempts ip) i) = 0
kind (attempts_in (Subject.username_attempts u) i) = 1
kind (failures_of ip) = 2
kind (block_of ip) = 3
kind code_config = 4

abbrev text : LimitKey → String
text (attempts_in (Subject.ip_attempts ip) i) = ip
text (attempts_in (Subject.username_attempts u) i) = u
text (failures_of ip) = ip
text (block_of ip) = ip
text code_config = ""

abbrev window : LimitKey → ℕ
window (attempts_in subject i) = i
window (failures_of ip) = 0
window (block_of ip) = 0
window code_config = 0

abbrev rebuilt : ℕ → String → ℕ → LimitKey
rebuilt k t i =
    if k == 0
    then attempts_in (Subject.ip_attempts t) i
    else if k == 1
    then attempts_in (Subject.username_attempts t) i
    else if k == 2
    then failures_of t
    else if k == 3
    then block_of t
    else code_config

rebuilt_lem : (k : LimitKey) → rebuilt (kind k) (text k) (window k) ≡ k
rebuilt_lem (attempts_in (Subject.ip_attempts ip) i) = refl
rebuilt_lem (attempts_in (Subject.username_attempts u) i) = refl
rebuilt_lem (failures_of ip) = refl
rebuilt_lem (block_of ip) = refl
rebuilt_lem code_config = refl

abbrev pub same_key : LimitKey → LimitKey → Bool
same_key j k = kind j == kind k && (str_eq (text j) (text k) && window j == window k)

and-true : (a c : Bool) → (a && c) ≡ true → (a ≡ true) × (c ≡ true)
and-true true c h = (refl, h)
and-true false c h = cc

same_key→eq : (j k : LimitKey) → same_key j k ≡ true → j ≡ k
same_key→eq j k h =
    let (kinds, others) = and-true (kind j == kind k) _ h in
    let (texts, windows) = and-true (str_eq (text j) (text k)) _ others in
    sym (rebuilt_lem j)
    ∙ (ap (λ x. rebuilt x (text j) (window j)) (==→eq (kind j) (kind k) kinds)
        ∙ (ap (λ x. rebuilt (kind k) x (window j)) ((str_eq_iff (text j) (text k)).0 texts)
            ∙ (ap (λ x. rebuilt (kind k) (text k) x) (==→eq (window j) (window k) windows)
                ∙ rebuilt_lem k)))

same_key_refl : (k : LimitKey) → same_key k k ≡ true
same_key_refl k =
    rw (==_refl (kind k), (str_eq_iff (text k) (text k)).1 refl, ==_refl (window k)) refl

pub same_key_iff : (j k : LimitKey) → same_key j k ≡ true ↔ j ≡ k
same_key_iff j k = (same_key→eq j k, λ e. ap (λ x. same_key j x) (sym e) ∙ same_key_refl j)

abbrev pub counters : Backend LimitKey ⊥ (Memory LimitKey ⊥)
counters = memory same_key

abbrev pub counters-IsReliable : IsReliable same_key counters
counters-IsReliable = memory-IsReliable same_key same_key_iff

abbrev pub settings :
    Backend LimitKey RegistrationCodeConfig (Memory LimitKey RegistrationCodeConfig)
settings = memory same_key

abbrev pub settings-IsReliable : IsReliable same_key settings
settings-IsReliable = memory-IsReliable same_key same_key_iff
