-- ===== src/Codec/Stream.antt =====
-- What an encoding function appends, what a decoding method takes off, and how the two meet.
use typeberry.Base.{
  ℕ, ◌+◌, ◌*◌, ◌^◌, ◌<◌, ◌≤◌, ◌≡◌, refl, sym, ap, ◌∙◌, arith, Bool, false, List, [], ◌++◌, length,
  length-append, drop-append, take-append, append-nil, append_assoc, ge→ltb,
}
use typeberry.Codec.Outcome
use typeberry.Codec.Outcome.{Outcome, ok, err, bind-eq-ok, ok-injective}
use typeberry.Codec.Words.{le_bytes, le_value-le_bytes, length-le_bytes}
use typeberry.Codec.Encoder.{Encoder, ensure_big_enough, put}
use typeberry.Codec.Decoder.{
  Decoder, Decode, ◌>>=◌, pure, ensure_has_bytes, advance, window, consume, get_num,
}

-- The decoder that has read `pre` and has `xs` before it.
abbrev pub at : List ℕ → List ℕ → Decoder
at pre xs = record { source = pre ++ xs; offset = length pre }

-- `m` reads exactly `bs`, whatever stands around them, and yields `a`.
abbrev pub Reads {ℓ} : {A : Type ℓ} → Decode A → List ℕ → A → Type ℓ
Reads m bs a = (pre rest : List ℕ) → m (at pre (bs ++ rest)) ≡ ok (a, at (pre ++ bs) rest)

-- Where `w` succeeds it appends exactly `bs`.
abbrev pub Writes : (Encoder → Outcome Encoder) → List ℕ → Type 0
Writes w bs = (e e' : Encoder) → w e ≡ ok e' → e'.written ≡ e.written ++ bs

-- One step of a chain.
pub bind-ok {ℓ κ} :
    {A : Type ℓ} {B : Type κ} (m : Decode A) (f : A → Decode B) {d d' : Decoder} {a : A}
    → m d ≡ ok (a, d')
    → (m >>= f) d ≡ f a d'
bind-ok m f h = rw (h, ◌>>=◌)

pub ensure-ok :
    (n : ℕ) (d : Decoder) → d.offset + n ≤ length d.source → ensure_has_bytes n d ≡ ok (tt, d)
unfolding ensure_has_bytes
ensure-ok n d h = rw (ge→ltb (length d.source) (d.offset + n) h)

pub room-at : (pre bs rest : List ℕ) → length pre + length bs ≤ length (pre ++ (bs ++ rest))
room-at pre bs rest = omega (arith, length-append pre (bs ++ rest), length-append bs rest)

pub consume-Reads : (bs : List ℕ) → Reads (consume (length bs)) bs bs
unfolding consume window advance
consume-Reads bs pre rest =
    bind-ok (ensure_has_bytes (length bs)) _
      (ensure-ok (length bs) (at pre (bs ++ rest)) (room-at pre bs rest))
    ∙ rw (
      drop-append pre (bs ++ rest),
      take-append bs rest,
      append_assoc pre bs rest,
      length-append pre bs,
    )

pub bind-Reads {ℓ κ} :
    {A : Type ℓ} {B : Type κ} (m : Decode A) (f : A → Decode B) (bs cs : List ℕ) (a : A) (b : B)
    → Reads m bs a
    → Reads (f a) cs b
    → Reads (m >>= f) (bs ++ cs) b
bind-Reads m f bs cs a b hm hf pre rest =
    ap (λ x. (m >>= f) (at pre x)) (append_assoc bs cs rest)
    ∙ bind-ok m f (hm pre (cs ++ rest))
    ∙ hf (pre ++ bs) rest
    ∙ ap (λ x. ok (b, at x rest)) (append_assoc pre bs cs)

pub pure-Reads {ℓ} : {A : Type ℓ} (a : A) → Reads (pure a) [] a
pure-Reads a pre rest = rw append-nil refl

pub ensure-written :
    (n : ℕ) (silent : Bool) (e e' : Encoder)
    → ensure_big_enough e n silent ≡ ok e'
    → e'.written ≡ e.written
unfolding ensure_big_enough
ensure-written n silent e e' h = ground arith

pub put-Writes : (bs : List ℕ) → Writes (put bs) bs
unfolding put
put-Writes bs e e' h =
    let (e₁, room, done) = bind-eq-ok (ensure_big_enough e (length bs) false) _ h in
    ap (λ (x : Encoder). x.written) (sym (ok-injective done))
    ∙ ap (λ (x : List ℕ). x ++ bs) (ensure-written (length bs) false e e₁ room)

pub bind-Writes :
    (w v : Encoder → Outcome Encoder) (bs cs : List ℕ)
    → Writes w bs
    → Writes v cs
    → Writes (λ e. Outcome.◌>>=◌ (w e) v) (bs ++ cs)
bind-Writes w v bs cs hw hv e e' h =
    let (e₁, first, second) = bind-eq-ok (w e) v h in
    hv e₁ e' second ∙ ap (λ (x : List ℕ). x ++ cs) (hw e e₁ first) ∙ append_assoc e.written bs cs

-- What `w` writes behind what is there, `m` reads back, and stops where `w` stopped.
abbrev pub RoundTrips {ℓ} : {A : Type ℓ} → (Encoder → Outcome Encoder) → Decode A → A → Type ℓ
RoundTrips w m a =
    (e e' : Encoder) (rest : List ℕ)
    → w e ≡ ok e'
    → m (record { source = e'.written ++ rest; offset = length e.written })
      ≡ ok (a, record { source = e'.written ++ rest; offset = length e'.written })

pub Reads-RoundTrips {ℓ} :
    {A : Type ℓ} (w : Encoder → Outcome Encoder) (m : Decode A) (bs : List ℕ) (a : A)
    → Writes w bs
    → Reads m bs a
    → RoundTrips w m a
Reads-RoundTrips w m bs a hw hm e e' rest h = rw (hw e e' h) (
    ap (λ x. m (record { source = x; offset = length e.written })) (append_assoc e.written bs rest)
    ∙ hm e.written rest)

-- Where the bytes are known only up to an equation.
pub subst-Reads {ℓ} :
    {A : Type ℓ} (m : Decode A) {bs cs : List ℕ} {a b : A}
    → bs ≡ cs
    → a ≡ b
    → Reads m bs a
    → Reads m cs b
subst-Reads m p q h pre rest = rw (← p, ← q) (h pre rest)

pub consume-length-Reads : (n : ℕ) (bs : List ℕ) → length bs ≡ n → Reads (consume n) bs bs
consume-length-Reads n bs h pre rest = rw (← h) (consume-Reads bs pre rest)

pub get_num-Reads : (n v : ℕ) → v < 2 ^ (8 * n) → Reads (get_num n) (le_bytes n v) v
unfolding get_num
get_num-Reads n v h pre rest =
    bind-ok (consume n) _ (consume-length-Reads n (le_bytes n v) (length-le_bytes n v) pre rest)
    ∙ ap (λ x. ok (x, at (pre ++ le_bytes n v) rest)) (le_value-le_bytes n v h)

-- Some bytes are both what `w` appends and what `m` reads as `a`.
abbrev pub Codes {ℓ} : {A : Type ℓ} → (Encoder → Outcome Encoder) → Decode A → A → Type ℓ
Codes w m a = (bs : List ℕ) × Writes w bs × Reads m bs a

pub Codes-RoundTrips {ℓ} :
    {A : Type ℓ} (w : Encoder → Outcome Encoder) (m : Decode A) (a : A)
    → Codes w m a
    → RoundTrips w m a
Codes-RoundTrips w m a (bs, hw, hm) = Reads-RoundTrips w m bs a hw hm

pub bind-Codes {ℓ κ} :
    {A : Type ℓ} {B : Type κ} (w v : Encoder → Outcome Encoder) (m : Decode A) (f : A → Decode B)
    (a : A) (b : B)
    → Codes w m a
    → Codes v (f a) b
    → Codes (λ e. Outcome.◌>>=◌ (w e) v) (m >>= f) b
bind-Codes w v m f a b (bs, hw, hm) (cs, hv, hf) =
    (bs ++ cs, bind-Writes w v bs cs hw hv, bind-Reads m f bs cs a b hm hf)
