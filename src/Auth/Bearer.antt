-- ===== src/Auth/Bearer.antt =====
-- The texts of the headers and keys: what `trim` and `strip_prefix` do to them.
use Prim.Native.Char.{code}
use Prim.Native.String.{◌++◌ as str_append}
use text.Mathlib.TextLemmas.{nil-append, cons-append, append-nil}
use invoice_payment_service.Prelude.{
  ◌≡◌, refl, ◌∙◌, ap, Bool, false, ◌||◌, String, Option, some, arith, str_eq, Bool-cases, inl, inr,
  Text.is_whitespace, Text.is_empty, Text.trim, Text.trim_start, Text.trim_end, Text.strip_prefix,
}
use invoice_payment_service.Auth.{key_env, full_key, bearer_token}

-- Whether a text has a character that `trim` could take.
unfoldable pub has_whitespace : String → Bool
unfolding is_whitespace
has_whitespace String.[] = false
has_whitespace (String.◌∷◌ c s) = is_whitespace (code c) || has_whitespace s

has_whitespace-append :
    (s t : String) → has_whitespace (str_append s t) ≡ (has_whitespace s || has_whitespace t)
unfolding has_whitespace
has_whitespace-append String.[] t = rw (nil-append t) refl
has_whitespace-append (String.◌∷◌ c s) t =
    rw (cons-append c s t) (ground (arith, has_whitespace-append s t))

trim_end_lem : (s : String) → has_whitespace s ≡ false → trim_end s ≡ s
unfolding trim_end has_whitespace
trim_end_lem String.[] h = refl
trim_end_lem (String.◌∷◌ c s) h = ground (arith, trim_end_lem s)

trim_start_lem : (s : String) → has_whitespace s ≡ false → trim_start s ≡ s
unfolding trim_start has_whitespace
trim_start_lem String.[] h = refl
trim_start_lem (String.◌∷◌ c s) h = ground arith

trim_lem : (s : String) → has_whitespace s ≡ false → trim s ≡ s
unfolding trim
trim_lem s h = ap trim_end (trim_start_lem s h) ∙ trim_end_lem s h

strip_prefix-append : (s t : String) → strip_prefix s (str_append s t) ≡ some t
unfolding strip_prefix
strip_prefix-append String.[] t = rw (nil-append t) refl
strip_prefix-append (String.◌∷◌ c s) t =
    rw (cons-append c s t) (ground (arith, strip_prefix-append s t))

is_empty-append : (s t : String) → is_empty s ≡ false → is_empty (str_append s t) ≡ false
unfolding is_empty
is_empty-append String.[] t h = absurd cc
is_empty-append (String.◌∷◌ c s) t h = rw (cons-append c s t) refl

env_plain : (env : String) → has_whitespace (key_env env) ≡ false
unfolding has_whitespace
env_plain env = elim (Bool-cases (str_eq env "live")) [
  | inl live ↦ rw live refl
  | inr test ↦ rw test refl
]

full_key_plain :
    (env random : String)
    → has_whitespace random ≡ false
    → has_whitespace (full_key env random) ≡ false
unfolding has_whitespace
full_key_plain env random h =
    rw
      (
        append-nil random,
        has_whitespace-append "dpk_" (str_append (key_env env) (str_append "_" random)),
        has_whitespace-append (key_env env) (str_append "_" random),
        has_whitespace-append "_" random,
        env_plain env,
        h,
      )
      refl

-- The header that a client sends with a key.
abbrev pub bearer : String → Option String
bearer key = some (str_append "Bearer " key)

pub bearer_token-bearer :
    (env random : String)
    → has_whitespace random ≡ false
    → bearer_token (bearer (full_key env random)) ≡ some (full_key env random)
unfolding bearer_token
bearer_token-bearer env random h =
    rw
      (
        strip_prefix-append "Bearer " (full_key env random),
        trim_lem (full_key env random) (full_key_plain env random h),
        is_empty-append "dpk_" (str_append (key_env env) (str_append "_" (str_append random "")))
            refl,
      )
      refl
