-- ===== src/Factorio/Protocol/NoPanic.antt =====
-- factorio-cacher/src/factorio_protocol.rs: reading packets of any bytes.
use factory_cacher.Base.{
  ℕ, ◌/◌, ◌%◌, Bool, true, false, ◌||◌, ◌==◌, ltb, length, if◌then◌else◌, Outcome, ok, err, panic,
  stuck, ◌>>=◌,
}
use factory_cacher.Base.Words.{Bytes}
use factory_cacher.Extern.ByteBuf.{ByteBuf}
use factory_cacher.Factorio.Protocol.{
  decode_header, decode_request, decode_block, get_fragmentation, get_fragment_id, get_varint16,
  skip_confirms, try_advance,
}

-- A call that returns a value or an error.
abbrev pub NoPanic {ℓ} : {A : Type ℓ} → Outcome A → Type 0
NoPanic (ok _) = Unit {0}
NoPanic (err _) = Unit {0}
NoPanic panic = ⊥
NoPanic stuck = ⊥

if-NoPanic {ℓ} :
    {A : Type ℓ} (b : Bool) (x y : Outcome A) → NoPanic x → NoPanic y → NoPanic (if b then x else y)
if-NoPanic true x y hx hy = hx
if-NoPanic false x y hx hy = hy

>>=-NoPanic {ℓ κ} :
    {A : Type ℓ} {B : Type κ} (m : Outcome A) (f : A → Outcome B)
    → NoPanic m
    → ((a : A) → NoPanic (f a))
    → NoPanic (m >>= f)
>>=-NoPanic (ok a) f h k = k a
>>=-NoPanic (err e) f h k = tt
>>=-NoPanic panic f h k = h
>>=-NoPanic stuck f h k = h

module _ (io : ByteBuf) where
  get_le-NoPanic : (w : ℕ) (b : Bytes) → NoPanic (io.get_le w b)
  get_le-NoPanic w b = rw (io.get_le_lem w b) (if-NoPanic (ltb (length b) w) _ _ tt tt)

  get_varint16-NoPanic : (b : Bytes) → NoPanic (get_varint16 io b)
  unfolding get_varint16
  get_varint16-NoPanic b =
      >>=-NoPanic _ _ (get_le-NoPanic 1 b)
        (λ (byte, rest). if-NoPanic (byte == 255) _ _ (get_le-NoPanic 2 rest) tt)

  get_fragment_id-NoPanic :
      (is_fragmented : Bool) (b : Bytes) → NoPanic (get_fragment_id io is_fragmented b)
  unfolding get_fragment_id
  get_fragment_id-NoPanic true b = >>=-NoPanic _ _ (get_varint16-NoPanic b) (λ _. tt)
  get_fragment_id-NoPanic false b = tt

  skip_confirms-NoPanic : (there : Bool) (b : Bytes) → NoPanic (skip_confirms io there b)
  unfolding skip_confirms try_advance
  skip_confirms-NoPanic true b =
      >>=-NoPanic _ _ (get_le-NoPanic 4 b)
        (λ (len, rest). if-NoPanic (ltb (length rest) len) _ _ tt tt)
  skip_confirms-NoPanic false b = tt

  get_fragmentation-NoPanic : (f l : Bool) (b : Bytes) → NoPanic (get_fragmentation io f l b)
  unfolding get_fragmentation
  get_fragmentation-NoPanic f l b =
      if-NoPanic (f || l) _ _
        (>>=-NoPanic _ _ (get_le-NoPanic 2 b) (λ (message_id, b1).
          >>=-NoPanic _ _ (get_fragment_id-NoPanic f b1) (λ (fragment_id, b2).
            >>=-NoPanic _ _ (skip_confirms-NoPanic (message_id / 0x8000 % 2 == 1) b2) (λ _. tt))))
        tt

  -- Whatever the bytes are, reading the header of a packet gives a header or an error, never a panic.
  pub decode_header-NoPanic : (b : Bytes) → NoPanic (decode_header io b)
  unfolding decode_header
  decode_header-NoPanic b = >>=-NoPanic _ _ (get_le-NoPanic 1 b) (λ (flags, b1).
      >>=-NoPanic _ _ (get_fragmentation-NoPanic (flags / 64 % 2 == 1) (flags / 128 % 2 == 1) b1)
        (λ _. tt))

  pub decode_block-NoPanic : (b : Bytes) → NoPanic (decode_block io b)
  unfolding decode_block
  decode_block-NoPanic b = >>=-NoPanic _ _ (get_le-NoPanic 4 b) (λ _. tt)

  pub decode_request-NoPanic : (b : Bytes) → NoPanic (decode_request io b)
  unfolding decode_request
  decode_request-NoPanic b = >>=-NoPanic _ _ (get_le-NoPanic 4 b) (λ _. tt)
