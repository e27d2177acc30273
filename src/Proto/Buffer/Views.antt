-- ===== src/Proto/Buffer/Views.antt =====
-- The contract of an encoder: what the buffer holds after it, as a bounded append.
use esphome_linux.Base.{
  ℕ, ◌+◌, ◌-◌, ◌≤◌, ◌<◌, ◌≡◌, refl, Bool, Option, none, some, List, [], ◌∷◌, ◌++◌, arith, leb,
  if◌then◌else◌, length, take, drop, length-take, length-append, append_assoc, append-nil, ◌∙◌,
  true, false, length-set, length-write_at, take-write_at,
}
use esphome_linux.Proto.Buffer.{PbBuffer, IsValid, put_byte, put_bytes, fail}

-- What has been written, `none` once an encoder has failed.
abbrev pub written : PbBuffer → Option (List ℕ)
written b = if b.error then none else some (take b.pos b.bytes)

-- Appending to a text of at most `cap` bytes: the specification of every encoder.
abbrev pub emit : ℕ → List ℕ → Option (List ℕ) → Option (List ℕ)
emit cap ys none = none
emit cap ys (some xs) = if leb (length xs + length ys) cap then some (xs ++ ys) else none

-- What is left to read.
abbrev pub unread : PbBuffer → List ℕ
unread b = take (b.size - b.pos) (drop b.pos b.bytes)

-- An encoder that answers whether it succeeded.
abbrev pub Encoder : Type 0
Encoder = PbBuffer → Bool × PbBuffer

-- The call leaves a valid buffer of the same size that has had `ys` appended.
pub record Appends (ys : List ℕ) (b b' : PbBuffer) : Type 0 where
  pub valid : IsValid b'
  pub same_size : b'.size ≡ b.size
  pub text : written b' ≡ emit b.size ys (written b)

-- The answer is true exactly if `ys` fits behind the position; then the position has moved over it,
-- and otherwise the error flag is set.
pub record Wrote (ys : List ℕ) (b : PbBuffer) (ok : Bool) (b' : PbBuffer) : Type 0 where
  pub told : ok ≡ leb (b.pos + length ys) b.size
  pub moved : ok ≡ true → (b'.pos ≡ b.pos + length ys) × (b'.error ≡ b.error)
  pub flagged : ok ≡ false → b'.error ≡ true
  pub appended : Appends ys b b'

abbrev pub Writes : Encoder → List ℕ → Type 0
Writes m ys = (b : PbBuffer) → IsValid b → Wrote ys b (m b).0 (m b).1

pub emit-append :
    (cap : ℕ) (xs ys : List ℕ) (t : Option (List ℕ))
    → emit cap ys (emit cap xs t) ≡ emit cap (xs ++ ys) t
emit-append cap xs ys none = refl
emit-append cap xs ys (some zs) =
    ground (arith, length-append xs ys, length-append zs xs, append_assoc zs xs ys)

pub length-front : (b : PbBuffer) → IsValid b → length (take b.pos b.bytes) ≡ b.pos
length-front b v = omega (arith, length-take b.pos b.bytes)

pub Appends-fail :
    (ys : List ℕ) (b : PbBuffer) → IsValid b → b.size < b.pos + length ys → Appends ys b (fail b)
Appends-fail ys b v h = record {
  valid = record { within = v.within; backed = v.backed; object = v.object };
  same_size = refl;
  text = ground (arith, length-front b v);
}

pub Appends-put_byte :
    (y : ℕ) (b : PbBuffer) → IsValid b → b.pos < b.size → Appends (y ∷ []) b (put_byte b y)
Appends-put_byte y b v h = record {
  valid = omega (arith, length-set b.bytes b.pos y);
  same_size = refl;
  text = ground (arith, length-front b v, take-write_at b.bytes b.pos (b.pos + 1) (y ∷ []));
}

pub Appends-put_bytes :
    (ys : List ℕ) (b : PbBuffer)
    → IsValid b
    → b.pos + length ys ≤ b.size
    → Appends ys b (put_bytes b ys)
Appends-put_bytes ys b v h = record {
  valid = omega (arith, length-write_at b.bytes b.pos ys);
  same_size = refl;
  text = ground (arith, length-front b v, take-write_at b.bytes b.pos (put_bytes b ys).pos ys);
}

pub Appends-trans :
    (xs ys : List ℕ) {a b c : PbBuffer} → Appends xs a b → Appends ys b c → Appends (xs ++ ys) a c
Appends-trans xs ys {a} {b} {c} p q = record {
  valid = q.valid;
  same_size = omega arith;
  text = cc (emit-append a.size xs ys (written a));
}

pub emit-none :
    (ys : List ℕ) (b : PbBuffer)
    → IsValid b
    → b.size < b.pos + length ys
    → emit b.size ys (written b) ≡ none
emit-none ys b v h = ground (arith, length-front b v)

-- What each of the endings of an encoder leaves.
pub Wrote-fail :
    (ys : List ℕ) (b : PbBuffer)
    → IsValid b
    → b.size < b.pos + length ys
    → Wrote ys b false (fail b)
Wrote-fail ys b v h = record {
  told = ground arith;
  moved = λ e. cc;
  flagged = λ e. refl;
  appended = Appends-fail ys b v h;
}

pub Wrote-nothing : (b : PbBuffer) → IsValid b → Wrote [] b true b
Wrote-nothing b v = record {
  told = ground (arith, v.within);
  moved = λ e. (omega arith, refl);
  flagged = λ e. cc;
  appended = record {
    valid = v;
    same_size = refl;
    text = ground (arith, length-front b v, append-nil (take b.pos b.bytes));
  };
}

pub Wrote-put_byte :
    (y : ℕ) (b : PbBuffer) → IsValid b → b.pos < b.size → Wrote (y ∷ []) b true (put_byte b y)
Wrote-put_byte y b v h = record {
  told = ground arith;
  moved = λ e. (omega arith, refl);
  flagged = λ e. cc;
  appended = Appends-put_byte y b v h;
}

pub Wrote-put_bytes :
    (ys : List ℕ) (b : PbBuffer)
    → IsValid b
    → b.pos + length ys ≤ b.size
    → Wrote ys b true (put_bytes b ys)
Wrote-put_bytes ys b v h = record {
  told = ground arith;
  moved = λ e. (omega (arith, v.backed, v.object), refl);
  flagged = λ e. cc;
  appended = Appends-put_bytes ys b v h;
}

-- One encoder after another that succeeded, and one that is not reached.
pub Wrote-trans :
    (xs ys : List ℕ) {a b c : PbBuffer} {ok : Bool}
    → Wrote xs a true b
    → Wrote ys b ok c
    → Wrote (xs ++ ys) a ok c
Wrote-trans xs ys {a} {b} p q =
    let at : b.pos ≡ a.pos + length xs = (p.moved refl).0 in
    record {
      told = q.told ∙ ground (arith, p.appended.same_size, length-append xs ys);
      moved = λ e.
          (omega (arith, (q.moved e).0, length-append xs ys), (q.moved e).1 ∙ (p.moved refl).1);
      flagged = q.flagged;
      appended = Appends-trans xs ys p.appended q.appended;
    }

pub Wrote-stop :
    (xs ys : List ℕ) {a b : PbBuffer} → IsValid a → Wrote xs a false b → Wrote (xs ++ ys) a false b
Wrote-stop xs ys {a} {b} v p =
    let long : a.size < a.pos + length xs = ground (arith, p.told) in
    record {
      told = ground (arith, length-append xs ys);
      moved = λ e. cc;
      flagged = p.flagged;
      appended = record {
        valid = p.appended.valid;
        same_size = p.appended.same_size;
        text =
            ground (
              arith,
              p.flagged refl,
              emit-none (xs ++ ys) a v (omega (arith, length-append xs ys)),
            );
      };
    }
