-- ===== src/Error.antt =====
-- src/error.rs: the errors as values, and the result type that `?` chains.
use ferrometer.Prelude.{◌≡◌, ◌≢◌, ◌↔◌, refl}
use ferrometer.Prelude.Text.{Text}

-- `Io` and `Other` carry errors of other crates; here their text.
pub data Error : Type 0 where
  config collector forwarder source sink sink_payload_too_large sink_rejected : Text → Error
  file_read : Text → Text → Error
  io other : Text → Error

pub data Result {ℓ} (V : Type ℓ) : Type ℓ where
  ok : V → Result V
  err : Error → Result V

infixl 5 ◌>>=◌
infixr 5 ◌>>◌
-- `?`: what follows gets the value, and an error ends the function.
abbrev pub ◌>>=◌ {ℓ κ} :
    {V : Type ℓ} {W : Type κ} (first : Result V) (rest : V → Result W) → Result W
err why >>= rest = err why
ok value >>= rest = rest value

-- The same where there is no value.
abbrev pub ◌>>◌ {κ} : {W : Type κ} → Result (Unit {0}) → Result W → Result W
first >> rest = first >>= (λ done_with. rest)

-- `.map_err(|e| ..)` on a result of another crate, whose error is a text.
pub data Foreign {ℓ} (A : Type ℓ) : Type ℓ where
  done : A → Foreign A
  failed : Text → Foreign A

abbrev pub map_err {ℓ} : {A : Type ℓ} → (Text → Error) → Foreign A → Result A
map_err f (done a) = ok a
map_err f (failed e) = err (f e)

err≢ok : {e : Error} {m : Result (Unit {0})} → m ≡ err e → m ≢ ok tt
err≢ok h k = cc

-- Steps in a row succeed just when each does.
pub seq_iff :
    {P Q : Type 0} {m k : Result (Unit {0})}
    → (m ≡ ok tt) ↔ P
    → (k ≡ ok tt) ↔ Q
    → ((m >> k) ≡ ok tt) ↔ (P × Q)
seq_iff {m = ok u} {k = k} (f, f') (g, g') = (λ h. (f refl, g h), λ (p, q). g' q)
seq_iff {m = err e} {k = k} (f, f') (g, g') =
    (λ h. absurd cc, λ (p, q). absurd (err≢ok refl (f' p)))

pub bind-ok {ℓ κ} :
    {V : Type ℓ} {W : Type κ} (first : Result V) (rest : V → Result W) {w : W}
    → (first >>= rest) ≡ ok w
    → (v : V) × (first ≡ ok v) × (rest v ≡ ok w)
bind-ok (err why) rest e = absurd cc
bind-ok (ok value) rest e = (value, refl, e)
