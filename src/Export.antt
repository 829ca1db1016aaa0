-- ===== src/Export.antt =====
-- rust-container/src/metrics.rs: the metrics as a C string, which the health service asks for. A pointer
-- from `into_raw` is the bytes that it points to.
pub mod Release
use push_cache.Base.{
  ◌≡◌, refl, false, Option, none, some, [], ◌∷◌, ◌++◌, Text, Bytes, from_utf8, ◌==◌, if◌then◌else◌,
  arith,
}
use push_cache.Base.Distinct.{member}
use push_cache.Error.{Result, ok, err}

-- What the code uses of `prometheus` and of the handle of the recorder: the families that a registry
-- gathers in the text format, and the handle's own text.
pub record Exporter (W : Type 0) : Type 1 where
  pub Registry : Type 0
  pub Handle : Type 0
  pub gather : Registry → W → Result Text Bytes × W
  pub render : Handle → W → Text × W

-- `CString::new`, which fails if there is a zero among the bytes, and puts one behind them.
abbrev c_string : Bytes → Option Bytes
c_string bytes = if member ◌==◌ 0 bytes then none else some (bytes ++ 0 ∷ [])

-- `String::from_utf8` and `CString::new`, none where one of them fails.
unfoldable pub into_raw : Bytes → Option Bytes
into_raw buffer = elim (from_utf8 buffer) [ none ↦ none | some text ↦ c_string text ]

module _ {W : Type 0} (exporter : Exporter W) where
  -- None where an `unwrap` panics.
  unfoldable pub prometheus_response : exporter.Registry → W → Option Bytes × W
  prometheus_response registry w =
      let (encoded, w') = exporter.gather registry w in
      (elim encoded [ err e ↦ none | ok buffer ↦ into_raw buffer ], w')

  unfoldable pub prometheus_response_mystate :
      exporter.Registry → exporter.Handle → W → Option Bytes × W
  prometheus_response_mystate registry prometheus_handle w =
      let (encoded, w1) = exporter.gather registry w in
      elim encoded [
        | err e ↦ (none, w1)
        | ok buffer ↦
            let (axum_string, w2) = exporter.render prometheus_handle w1 in
            (into_raw (buffer ++ axum_string), w2)
      ]

-- What a reader of a C string sees: the bytes before the first zero.
abbrev pub read_c : Bytes → Bytes
read_c [] = []
read_c (b ∷ bs) = let rest = read_c bs in if b == 0 then [] else b ∷ rest

-- A reader of the C string of bytes without a zero sees these bytes.
read_c-append : (bytes : Bytes) → member ◌==◌ 0 bytes ≡ false → read_c (bytes ++ 0 ∷ []) ≡ bytes
read_c-append [] h = refl
read_c-append (b ∷ bytes) h = ground (arith, read_c-append bytes (ground arith))

module _ {W : Type 0} (exporter : Exporter W) where
  -- If the metrics can be gathered, and they and the text of the handle behind them are UTF-8 without a
  -- zero, then the response is a C string as which they are read.
  response-read :
      (registry : exporter.Registry) (handle : exporter.Handle) (w : W) (buffer : Bytes)
      (text : Text)
      → (exporter.gather registry w).0 ≡ ok buffer
      → from_utf8 (buffer ++ (exporter.render handle (exporter.gather registry w).1).0) ≡ some text
      → member ◌==◌ 0 text ≡ false
      → (c : Bytes) × ((prometheus_response_mystate exporter registry handle w).0 ≡ some c)
        × (read_c c ≡ text)
  unfolding prometheus_response_mystate into_raw
  response-read registry handle w buffer text g u z = (
    text ++ 0 ∷ [],
    rw (prometheus_response_mystate, g, into_raw, u, c_string, z) refl,
    read_c-append text z,
  )
