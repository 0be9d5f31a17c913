-- ===== src/Protocol/Decode/Steps.antt =====
-- How the steps of a decoder go on when they succeed.
use mathlib.Core.List.{append-nil}
use mathlib.Core.Path.{subst}
use mycore.Base.{ℕ, ◌≤◌, ◌≡◌, refl, ◌∙◌, some, [], ◌++◌, Bool, false, ltb, length, arith}
use mycore.Base.Results.{value}
use mycore.Protocol.Messages.{CodecError}
use mycore.Protocol.Bytes.{Bytes, Reader}
use mycore.Protocol.Decode.{Decoder, ◌>>=◌, ◌>>◌, need, refuse_if, at_least, at_end, exactly}

-- A read that succeeds, and a step that does, hand their value on.
pub need-some :
    {A : Type 0} (read : Reader A) (bytes : Bytes) (r : A × Bytes)
    → read bytes ≡ some r
    → need read bytes ≡ value r
need-some read bytes r h = rw (h, need) refl

pub bind-step :
    {A B : Type 0} (step : Decoder A) (next : A → Decoder B) (bytes : Bytes) (a : A) (rest : Bytes)
    → step bytes ≡ value (a, rest)
    → (step >>= next) bytes ≡ next a rest
bind-step step next bytes a rest h = rw (h, ◌>>=◌) refl

module _ (bytes : Bytes) where
  passes :
      (test : Bool) (e : CodecError) → test ≡ false → refuse_if test e bytes ≡ value (tt, bytes)
  passes test e h = rw (h) refl

  module _ {B : Type 0} (next : Decoder B) where
    pub refuse-step :
        (test : Bool) (e : CodecError)
        → test ≡ false
        → (refuse_if test e >> next) bytes ≡ next bytes
    refuse-step test e h = bind-step (refuse_if test e) (λ u. next) bytes tt bytes (passes test e h)

    pub at_least-step :
        (count : ℕ) → count ≤ length bytes → (at_least count >> next) bytes ≡ next bytes
    at_least-step count h =
        bind-step (at_least count) (λ u. next) bytes tt bytes
          (passes (ltb (length bytes) count) _ (ground arith))

    pub exactly-step :
        (count : ℕ) → length bytes ≡ count → (exactly count >> next) bytes ≡ next bytes
    exactly-step count h =
        bind-step (exactly count) (λ u. next) bytes tt bytes
          (bind-step (at_least count) _ bytes tt bytes
              (passes (ltb (length bytes) count) _ (ground arith))
            ∙ passes (ltb count (length bytes)) _ (ground arith))

pub at_end-step : {B : Type 0} (next : Decoder B) → (at_end >> next) [] ≡ next []
at_end-step next = refl

-- A step that reads the last part of a payload.
pub step-last :
    {A : Type 0} (step : Decoder A) (bytes : Bytes) (a : A)
    → step (bytes ++ []) ≡ value (a, [])
    → step bytes ≡ value (a, [])
step-last step bytes a h = subst (λ b. step b ≡ value (a, [])) (append-nil bytes) h
