-- ===== src/Factorio/Zip/Octets.antt =====
-- factorio-cacher/src/zip_writer.rs: what the writer writes is bytes, numbers below 256.
use factory_cacher.Base.{
  ℕ, ◌≡◌, subst, sym, List, [], ◌∷◌, length, Outcome, ok, err, panic, stuck, ◌>>=◌, All, All-append,
}
use factory_cacher.Base.Words.{Bytes, IsByte, le_bytes, le_bytes-IsByte}
use factory_cacher.Extern.ByteBuf.{ByteBuf}
use factory_cacher.Factorio.Zip.{
  Entry, Writer, narrow, put_fields, put_entry, put_entries, encode_central_directory,
}

-- If there is a result, it is bytes.
OkBytes : Outcome Bytes → Type 0
OkBytes (ok b) = All IsByte b
OkBytes (err e) = Unit {0}
OkBytes panic = Unit {0}
OkBytes stuck = Unit {0}

then_bytes :
    {A : Type 0} (m : Outcome A) (k : A → Outcome Bytes)
    → ((a : A) → OkBytes (k a))
    → OkBytes (m >>= k)
unfolding OkBytes
then_bytes (ok a) k h = h a
then_bytes (err e) k h = tt
then_bytes panic k h = tt
then_bytes stuck k h = tt

after_bytes :
    (m : Outcome Bytes) (k : Bytes → Outcome Bytes)
    → OkBytes m
    → ((b : Bytes) → All IsByte b → OkBytes (k b))
    → OkBytes (m >>= k)
unfolding OkBytes
after_bytes (ok a) k h f = f a h
after_bytes (err e) k h f = tt
after_bytes panic k h f = tt
after_bytes stuck k h f = tt

module _ (io : ByteBuf) where
  put_fields-IsByte :
      (fields : List (ℕ × ℕ)) (buf : Bytes) → All IsByte buf → All IsByte (put_fields io fields buf)
  unfolding put_fields
  put_fields-IsByte [] buf h = h
  put_fields-IsByte ((w, x) ∷ fields) buf h = put_fields-IsByte fields (io.put_le w x buf) (
      subst (All IsByte) (sym (io.put_le_lem w x buf))
        (All-append IsByte buf (le_bytes w x) h (le_bytes-IsByte w x)))

  put_entry-OkBytes :
      (entry : Entry) (buf : Bytes)
      → All IsByte entry.file_name
      → All IsByte buf
      → OkBytes (put_entry io entry buf)
  unfolding put_entry OkBytes
  put_entry-OkBytes entry buf name h =
      then_bytes (narrow 32 entry.start_offset) _
        (λ offset. All-append IsByte _ entry.file_name (put_fields-IsByte _ buf h) name)

  put_entries-OkBytes :
      (entries : List Entry) (buf : Bytes)
      → All (λ (e : Entry). All IsByte e.file_name) entries
      → All IsByte buf
      → OkBytes (put_entries io entries buf)
  unfolding put_entries OkBytes
  put_entries-OkBytes [] buf names h = h
  put_entries-OkBytes (entry ∷ entries) buf (name, names) h =
      after_bytes (put_entry io entry buf) (put_entries io entries)
        (put_entry-OkBytes entry buf name h) (λ b bytes. put_entries-OkBytes entries b names bytes)

  pub encode_central_directory-IsByte :
      (z : Writer) (out : Bytes)
      → All (λ (e : Entry). All IsByte e.file_name) z.entries
      → encode_central_directory io z ≡ ok out
      → All IsByte out
  unfolding encode_central_directory OkBytes
  encode_central_directory-IsByte z out names run = subst OkBytes run (
      then_bytes (narrow 32 z.current_offset) _ (λ offset.
        then_bytes (narrow 16 (length z.entries)) _ (λ count.
          after_bytes (put_entries io z.entries []) _ (put_entries-OkBytes z.entries [] names tt)
            (λ buf bytes.
              then_bytes (narrow 32 (length buf)) _ (λ size. put_fields-IsByte _ buf bytes)))))
