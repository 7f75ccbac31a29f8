-- ===== src/Syscall/Compound.antt =====
-- The results and the tuples of crates/common/ov6_syscall/src/register.rs, over the codings of their parts.
use ov.Prelude.{ℕ, ◌-◌, ◌≡◌, ◌==◌, if◌then◌else◌}
use ov.Syscall.{word, invalid_designator, Decoded, ok, err, ◌>>=◌, Regs, RegisterValue}

-- `Result<T, E>`
pub data Result (T E : Type 0) : Type 0 where
  success : T → Result T E
  failure : E → Result T E

abbrev pub usize_max : ℕ
usize_max = word - 1

abbrev pub IsResult : {T E : Type 0} → (T → Type 0) → (E → Type 0) → Result T E → Type 0
IsResult P Q (success v) = P v
IsResult P Q (failure e) = Q e

module _ {T E : Type 0} (e : RegisterValue 1 E) where
  module _ (t : RegisterValue 0 T) where
    pub result_encode_01 : Result T E → Regs 2
    result_encode_01 (success v) = (0, 0)
    result_encode_01 (failure v) = (usize_max, e.encode v)

    pub result_decode_01 : Regs 2 → Decoded (Result T E)
    result_decode_01 (a0, a1) =
        let good = (do v ← t.try_decode tt; ok (success v)) in
        let bad = (do v ← e.try_decode a1; ok (failure v)) in
        if a0 == 0 then good else if a0 == usize_max then bad else err (invalid_designator a0)

    pub result_01_lem :
        (r : Result T E)
        → IsResult t.IsValue e.IsValue r
        → result_decode_01 (result_encode_01 r) ≡ ok r
    unfolding result_decode_01 result_encode_01
    result_01_lem (success v) h = rw (t.decode-encode v h)
    result_01_lem (failure v) h = rw (e.decode-encode v h)

    abbrev pub result_01 : RegisterValue 2 (Result T E)
    result_01 = record {
      encode = result_encode_01;
      try_decode = result_decode_01;
      IsValue = IsResult t.IsValue e.IsValue;
      decode-encode = result_01_lem;
    }

  module _ (t : RegisterValue 1 T) where
    pub result_encode_11 : Result T E → Regs 2
    result_encode_11 (success v) = (0, t.encode v)
    result_encode_11 (failure v) = (usize_max, e.encode v)

    pub result_decode_11 : Regs 2 → Decoded (Result T E)
    result_decode_11 (a0, a1) =
        let good = (do v ← t.try_decode a1; ok (success v)) in
        let bad = (do v ← e.try_decode a1; ok (failure v)) in
        if a0 == 0 then good else if a0 == usize_max then bad else err (invalid_designator a0)

    pub result_11_lem :
        (r : Result T E)
        → IsResult t.IsValue e.IsValue r
        → result_decode_11 (result_encode_11 r) ≡ ok r
    unfolding result_decode_11 result_encode_11
    result_11_lem (success v) h = rw (t.decode-encode v h)
    result_11_lem (failure v) h = rw (e.decode-encode v h)

    abbrev pub result_11 : RegisterValue 2 (Result T E)
    result_11 = record {
      encode = result_encode_11;
      try_decode = result_decode_11;
      IsValue = IsResult t.IsValue e.IsValue;
      decode-encode = result_11_lem;
    }

-- Tuples of two: the digits are the registers of the parts.
module _ {T U : Type 0} where
  module _ (t : RegisterValue 1 T) (u : RegisterValue 1 U) where
    pub tuple_encode_11 : T × U → Regs 2
    tuple_encode_11 (a, b) = (t.encode a, u.encode b)

    pub tuple_decode_11 : Regs 2 → Decoded (T × U)
    tuple_decode_11 (a0, a1) = do a ← t.try_decode a0; b ← u.try_decode a1; ok (a, b)

    pub tuple_11_lem :
        (x : T × U) → t.IsValue x.0 × u.IsValue x.1 → tuple_decode_11 (tuple_encode_11 x) ≡ ok x
    unfolding tuple_decode_11 tuple_encode_11
    tuple_11_lem x h = rw (t.decode-encode x.0 h.0, u.decode-encode x.1 h.1)

    abbrev pub tuple_11 : RegisterValue 2 (T × U)
    tuple_11 = record {
      encode = tuple_encode_11;
      try_decode = tuple_decode_11;
      IsValue = λ x. t.IsValue x.0 × u.IsValue x.1;
      decode-encode = tuple_11_lem;
    }

  module _ (t : RegisterValue 1 T) (u : RegisterValue 2 U) where
    pub tuple_encode_12 : T × U → Regs 3
    tuple_encode_12 (a, b) = (t.encode a, (u.encode b).0, (u.encode b).1)

    pub tuple_decode_12 : Regs 3 → Decoded (T × U)
    tuple_decode_12 (a0, a1, a2) = do a ← t.try_decode a0; b ← u.try_decode (a1, a2); ok (a, b)

    pub tuple_12_lem :
        (x : T × U) → t.IsValue x.0 × u.IsValue x.1 → tuple_decode_12 (tuple_encode_12 x) ≡ ok x
    unfolding tuple_decode_12 tuple_encode_12
    tuple_12_lem x h = rw (t.decode-encode x.0 h.0, u.decode-encode x.1 h.1)

    abbrev pub tuple_12 : RegisterValue 3 (T × U)
    tuple_12 = record {
      encode = tuple_encode_12;
      try_decode = tuple_decode_12;
      IsValue = λ x. t.IsValue x.0 × u.IsValue x.1;
      decode-encode = tuple_12_lem;
    }

  module _ (t : RegisterValue 2 T) (u : RegisterValue 1 U) where
    pub tuple_encode_21 : T × U → Regs 3
    tuple_encode_21 (a, b) = ((t.encode a).0, (t.encode a).1, u.encode b)

    pub tuple_decode_21 : Regs 3 → Decoded (T × U)
    tuple_decode_21 (a0, a1, a2) = do a ← t.try_decode (a0, a1); b ← u.try_decode a2; ok (a, b)

    pub tuple_21_lem :
        (x : T × U) → t.IsValue x.0 × u.IsValue x.1 → tuple_decode_21 (tuple_encode_21 x) ≡ ok x
    unfolding tuple_decode_21 tuple_encode_21
    tuple_21_lem x h = rw (t.decode-encode x.0 h.0, u.decode-encode x.1 h.1)

    abbrev pub tuple_21 : RegisterValue 3 (T × U)
    tuple_21 = record {
      encode = tuple_encode_21;
      try_decode = tuple_decode_21;
      IsValue = λ x. t.IsValue x.0 × u.IsValue x.1;
      decode-encode = tuple_21_lem;
    }

  module _ (t : RegisterValue 2 T) (u : RegisterValue 2 U) where
    pub tuple_encode_22 : T × U → Regs 4
    tuple_encode_22 (a, b) = ((t.encode a).0, (t.encode a).1, (u.encode b).0, (u.encode b).1)

    pub tuple_decode_22 : Regs 4 → Decoded (T × U)
    tuple_decode_22 (a0, a1, a2, a3) = do
      a ← t.try_decode (a0, a1)
      b ← u.try_decode (a2, a3)
      ok (a, b)

    pub tuple_22_lem :
        (x : T × U) → t.IsValue x.0 × u.IsValue x.1 → tuple_decode_22 (tuple_encode_22 x) ≡ ok x
    unfolding tuple_decode_22 tuple_encode_22
    tuple_22_lem x h = rw (t.decode-encode x.0 h.0, u.decode-encode x.1 h.1)

    abbrev pub tuple_22 : RegisterValue 4 (T × U)
    tuple_22 = record {
      encode = tuple_encode_22;
      try_decode = tuple_decode_22;
      IsValue = λ x. t.IsValue x.0 × u.IsValue x.1;
      decode-encode = tuple_22_lem;
    }

-- Tuples of three.
module _ {T U V : Type 0} where
  module _ (t : RegisterValue 2 T) (u : RegisterValue 1 U) (v : RegisterValue 1 V) where
    pub tuple_encode_211 : T × U × V → Regs 4
    tuple_encode_211 (a, b, c) = ((t.encode a).0, (t.encode a).1, u.encode b, v.encode c)

    pub tuple_decode_211 : Regs 4 → Decoded (T × U × V)
    tuple_decode_211 (a0, a1, a2, a3) = do
      a ← t.try_decode (a0, a1)
      b ← u.try_decode a2
      c ← v.try_decode a3
      ok (a, b, c)

    pub tuple_211_lem :
        (x : T × U × V)
        → t.IsValue x.0 × u.IsValue x.1 × v.IsValue x.2
        → tuple_decode_211 (tuple_encode_211 x) ≡ ok x
    unfolding tuple_decode_211 tuple_encode_211
    tuple_211_lem x h =
        rw (t.decode-encode x.0 h.0, u.decode-encode x.1 h.1, v.decode-encode x.2 h.2)

    abbrev pub tuple_211 : RegisterValue 4 (T × U × V)
    tuple_211 = record {
      encode = tuple_encode_211;
      try_decode = tuple_decode_211;
      IsValue = λ x. t.IsValue x.0 × u.IsValue x.1 × v.IsValue x.2;
      decode-encode = tuple_211_lem;
    }

  module _ (t : RegisterValue 1 T) (u : RegisterValue 1 U) (v : RegisterValue 2 V) where
    pub tuple_encode_112 : T × U × V → Regs 4
    tuple_encode_112 (a, b, c) = (t.encode a, u.encode b, (v.encode c).0, (v.encode c).1)

    pub tuple_decode_112 : Regs 4 → Decoded (T × U × V)
    tuple_decode_112 (a0, a1, a2, a3) = do
      a ← t.try_decode a0
      b ← u.try_decode a1
      c ← v.try_decode (a2, a3)
      ok (a, b, c)

    pub tuple_112_lem :
        (x : T × U × V)
        → t.IsValue x.0 × u.IsValue x.1 × v.IsValue x.2
        → tuple_decode_112 (tuple_encode_112 x) ≡ ok x
    unfolding tuple_decode_112 tuple_encode_112
    tuple_112_lem x h =
        rw (t.decode-encode x.0 h.0, u.decode-encode x.1 h.1, v.decode-encode x.2 h.2)

    abbrev pub tuple_112 : RegisterValue 4 (T × U × V)
    tuple_112 = record {
      encode = tuple_encode_112;
      try_decode = tuple_decode_112;
      IsValue = λ x. t.IsValue x.0 × u.IsValue x.1 × v.IsValue x.2;
      decode-encode = tuple_112_lem;
    }
