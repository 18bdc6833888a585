-- ===== src/Factorio/World/Described.antt =====
-- factorio-cacher/src/factorio_world.rs: the descriptions of the files of a world.
use factory_cacher.Base.{ℕ, ◌≤◌, ◌<◌, ◌≡◌, List, [], ◌∷◌, length, Outcome, ok, arith}
use factory_cacher.Base.Words.{Bytes}
use factory_cacher.Extern.Blake3.{Blake3}
use factory_cacher.Extern.ByteBuf.{ByteBuf}
use factory_cacher.Extern.Deflate.{Deflate}
use factory_cacher.Dedup.{ChunkMap}
use factory_cacher.Dedup.Content.{IsNode}
use factory_cacher.Dedup.Grows.{Grows, IsNode-Grows}
use factory_cacher.Factorio.World.{FileDescription, decode_factorio_file}

-- What an archive gives for an index: an error, or a name and its content.
abbrev pub Entry : Type 0
Entry = Outcome (Bytes × Bytes)

module _ (io : ByteBuf) (deflate : Deflate) (blake : Blake3) where
  -- A description is that of a file in the archive: it has its name and type, the size of its
  -- decoded content, and a list of fewer than `bound` levels that stands for this content.
  pub record IsDescribed (chunks : ChunkMap) (bound : ℕ) (entry : Entry) (file : FileDescription)
      (content : Bytes) : Type 0 where
    pub buf : Bytes
    pub found : entry ≡ ok (file.file_name, buf)
    pub decoded :
        decode_factorio_file io deflate file.file_name buf
        ≡ ok (record { file_type = file.file_type; bytes = content })
    pub content_size : file.content_size ≡ length content
    pub level : ℕ
    pub low : level < bound
    pub node : IsNode chunks level file.chunk_list content

  -- So it is for each file, in order.
  abbrev pub Described : ChunkMap → ℕ → List Entry → List FileDescription → List Bytes → Type 0
  Described chunks bound [] [] [] = Unit {0}
  Described chunks bound (entry ∷ entries) (file ∷ files) (content ∷ contents) =
      IsDescribed chunks bound entry file content × Described chunks bound entries files contents
  Described chunks bound _ _ _ = ⊥

  pub IsDescribed-later :
      (m m' : ChunkMap) (bound bound' : ℕ) (entry : Entry) (file : FileDescription)
      (content : Bytes)
      → Grows m m'
      → bound ≤ bound'
      → IsDescribed m bound entry file content
      → IsDescribed m' bound' entry file content
  IsDescribed-later m m' bound bound' entry file content grows more h = record {
    buf = h.buf;
    found = h.found;
    decoded = h.decoded;
    content_size = h.content_size;
    level = h.level;
    low = omega (arith, h.low);
    node = IsNode-Grows m m' h.level file.chunk_list content grows h.node;
  }

  pub Described-bound :
      (m : ChunkMap) (bound bound' : ℕ) (entries : List Entry) (files : List FileDescription)
      (contents : List Bytes)
      → bound ≤ bound'
      → Described m bound entries files contents
      → Described m bound' entries files contents
  Described-bound m bound bound' [] [] [] more h = tt
  Described-bound m bound bound' (e ∷ es) (f ∷ fs) (c ∷ cs) more (here, rest) = (
    IsDescribed-later m m bound bound' e f c (λ k v i. i) more here,
    Described-bound m bound bound' es fs cs more rest,
  )
  Described-bound m bound bound' [] [] (c ∷ cs) more h = absurd h
  Described-bound m bound bound' [] (f ∷ fs) cs more h = absurd h
  Described-bound m bound bound' (e ∷ es) [] cs more h = absurd h
  Described-bound m bound bound' (e ∷ es) (f ∷ fs) [] more h = absurd h
