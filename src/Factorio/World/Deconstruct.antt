-- ===== src/Factorio/World/Deconstruct.antt =====
-- factorio-cacher/src/factorio_world.rs: what the descriptions that `deconstruct_world` makes say
-- of the files in the archive, and of the chunks that it stored.
use factory_cacher.Base.{
  ℕ, suc, ◌≡◌, refl, max, List, [], ◌∷◌, length, Outcome, ok, err, panic, stuck, ◌>>=◌, arith,
  ok-injective, subst,
}
use factory_cacher.Base.HashMap
use factory_cacher.Base.Words.{Bytes}
use factory_cacher.Extern.Blake3.{Blake3}
use factory_cacher.Extern.ByteBuf.{ByteBuf}
use factory_cacher.Extern.Deflate.{Deflate}
use factory_cacher.Dedup.{ChunkList, ChunkMap}
use factory_cacher.Dedup.Build.{chunk_data-Finished, minimize_chunk_list-Finished}
use factory_cacher.Dedup.Content.{IsNode}
use factory_cacher.Dedup.Grows.{
  Grows, OkGrows→Grows, chunk_data-OkGrows, minimize_chunk_list-OkGrows,
}
use factory_cacher.Dedup.Levels.{Keyed}
use factory_cacher.Factorio.World.{
  File, FileDescription, WorldDescription, decode_factorio_file, chunk_file, deconstruct_files,
  deconstruct_world,
}
use factory_cacher.Factorio.World.Described.{
  Entry, IsDescribed, Described, IsDescribed-later, Described-bound,
}

module _ (io : ByteBuf) (deflate : Deflate) (blake : Blake3) where
  -- What `chunk_file` gives.
  pub record ChunksFile (file_name : Bytes) (file : File) (m : ChunkMap) : Type 0 where
    pub chunk_list : ChunkList
    pub chunks : ChunkMap
    pub level : ℕ
    pub run :
        chunk_file io deflate blake file_name file m
        ≡ ok (
          record {
            file_type = file.file_type;
            file_name = file_name;
            content_size = length file.bytes;
            chunk_list = chunk_list;
          },
          chunks,
        )
    pub node : IsNode chunks level chunk_list file.bytes
    pub keyed : Keyed io blake chunks
    pub grows : Grows m chunks

  chunk_file-ChunksFile :
      (file_name : Bytes) (file : File) (m : ChunkMap)
      → Keyed io blake m
      → ChunksFile file_name file m
  unfolding chunk_file
  chunk_file-ChunksFile file_name file m keyed =
      let (root, m1, level1, run1, node1, keyed1) =
        chunk_data-Finished io blake file.bytes m keyed in
      let (list, m2, level2, run2, node2, keyed2) =
        minimize_chunk_list-Finished io blake level1 root m1 file.bytes node1 keyed1 in
      record {
        chunk_list = list;
        chunks = m2;
        level = level2;
        run = rw (run1, run2) refl;
        node = node2;
        keyed = keyed2;
        grows = λ k v i.
            OkGrows→Grows m1 m2 list _ (minimize_chunk_list-OkGrows io blake root m1) run2 k v
              (OkGrows→Grows m m1 root _ (chunk_data-OkGrows io blake file.bytes m) run1 k v i);
      }

  -- A result of `deconstruct_files`, if there is one.
  OkDescribed : List Entry → ChunkMap → Outcome (List FileDescription × ChunkMap) → Type 0
  OkDescribed entries m (ok (files, m')) =
      (bound : ℕ) × (contents : List Bytes) × Described io deflate blake m' bound entries files
        contents
      × Keyed io blake m'
      × Grows m m'
  OkDescribed entries m (err e) = Unit {0}
  OkDescribed entries m panic = Unit {0}
  OkDescribed entries m stuck = Unit {0}

  then_described :
      {A : Type 0} (entries : List Entry) (m : ChunkMap) (x : Outcome A)
      (k : A → Outcome (List FileDescription × ChunkMap))
      → ((a : A) → x ≡ ok a → OkDescribed entries m (k a))
      → OkDescribed entries m (x >>= k)
  unfolding OkDescribed
  then_described entries m (ok a) k h = h a refl
  then_described entries m (err e) k h = tt
  then_described entries m panic k h = tt
  then_described entries m stuck k h = tt

  -- One more description in front of those of the later files.
  add_described :
      (entry : Entry) (entries : List Entry) (m m1 : ChunkMap) (bound : ℕ) (file : FileDescription)
      (content : Bytes) (rest : Outcome (List FileDescription × ChunkMap))
      → IsDescribed io deflate blake m1 bound entry file content
      → Grows m m1
      → OkDescribed entries m1 rest
      → OkDescribed (entry ∷ entries) m (rest >>= λ x. ok (file ∷ x.0, x.1))
  unfolding OkDescribed
  add_described entry entries m m1 bound file content (ok (files, m2)) here grows
        (bound', contents, described, keyed, grows') =
      (
        max bound bound',
        content ∷ contents,
        (
          IsDescribed-later io deflate blake m1 m2 bound (max bound bound') entry file content
              grows' (omega arith) here,
          Described-bound io deflate blake m2 bound' (max bound bound') entries files contents
              (omega arith) described,
        ),
        keyed,
        λ k v i. grows' k v (grows k v i),
      )
  add_described entry entries m m1 bound file content (err e) here grows h = tt
  add_described entry entries m m1 bound file content panic here grows h = tt
  add_described entry entries m m1 bound file content stuck here grows h = tt

  deconstruct_files-OkDescribed :
      (entries : List Entry) (m : ChunkMap)
      → Keyed io blake m
      → OkDescribed entries m (deconstruct_files io deflate blake entries m)
  unfolding deconstruct_files OkDescribed
  deconstruct_files-OkDescribed [] m keyed = (0, [], tt, keyed, λ k v i. i)
  deconstruct_files-OkDescribed (entry ∷ entries) m keyed =
      then_described (entry ∷ entries) m entry _ (λ x found.
        then_described (entry ∷ entries) m (decode_factorio_file io deflate x.0 x.1) _
          (λ file decoded.
            let here = chunk_file-ChunksFile x.0 file m keyed in
            rw here.run (
              add_described entry entries m here.chunks (suc here.level) _ file.bytes
                (deconstruct_files io deflate blake entries here.chunks)
                (record {
                  buf = x.1;
                  found = found;
                  decoded = decoded;
                  content_size = refl;
                  level = here.level;
                  low = omega arith;
                  node = here.node;
                })
                here.grows (deconstruct_files-OkDescribed entries here.chunks here.keyed))))

-- What `deconstruct_world` gives for an archive that can be opened.
pub record IsDeconstructed (io : ByteBuf) (deflate : Deflate) (blake : Blake3)
    (entries : List Entry) (aux_data : Bytes) (world : WorldDescription) (chunks : ChunkMap)
    : Type 0 where
  pub bound : ℕ
  pub contents : List Bytes
  pub described : Described io deflate blake chunks bound entries world.files contents
  pub keyed : Keyed io blake chunks
  pub same_aux : world.aux_data ≡ aux_data

abbrev whole_world : Bytes → List FileDescription × ChunkMap → WorldDescription × ChunkMap
whole_world aux_data (files, chunks) =
    (record { files = files; aux_data = aux_data; total_chunks = HashMap.len chunks }, chunks)

of_files :
    (io : ByteBuf) (deflate : Deflate) (blake : Blake3) (entries : List Entry) (aux_data : Bytes)
    (world : WorldDescription) (chunks : ChunkMap) (x : Outcome (List FileDescription × ChunkMap))
    → OkDescribed io deflate blake entries [] x
    → (x >>= λ y. ok (whole_world aux_data y)) ≡ ok (world, chunks)
    → IsDeconstructed io deflate blake entries aux_data world chunks
unfolding OkDescribed
of_files io deflate blake entries aux_data world chunks (ok (files, m))
      (bound, contents, described, keyed, grows) run =
    subst
      (λ (p : WorldDescription × ChunkMap).
        IsDeconstructed io deflate blake entries aux_data p.0 p.1)
      (ok-injective run)
      (record {
        bound = bound;
        contents = contents;
        described = described;
        keyed = keyed;
        same_aux = refl;
      })
of_files io deflate blake entries aux_data world chunks (err e) h run = cc
of_files io deflate blake entries aux_data world chunks panic h run = cc
of_files io deflate blake entries aux_data world chunks stuck h run = cc

-- When `deconstruct_world` succeeds on an archive with the given entries, the description lists
-- every entry in order, with its name, its type and the size of its decoded content, which its
-- chunk list stands for among the final chunks; these lie under their hashes, and the auxiliary
-- data is that which was given.
pub deconstruct_world-IsDeconstructed :
    (io : ByteBuf) (deflate : Deflate) (blake : Blake3)
    (open_archive : Bytes → Outcome (List Entry)) (entries : List Entry)
    (world_data aux_data : Bytes) (world : WorldDescription) (chunks : ChunkMap)
    → open_archive world_data ≡ ok entries
    → deconstruct_world io deflate blake open_archive world_data aux_data ≡ ok (world, chunks)
    → IsDeconstructed io deflate blake entries aux_data world chunks
unfolding deconstruct_world
deconstruct_world-IsDeconstructed io deflate blake open_archive entries world_data aux_data world
      chunks opened run =
    of_files io deflate blake entries aux_data world chunks
      (deconstruct_files io deflate blake entries [])
      (deconstruct_files-OkDescribed io deflate blake entries [] tt) (rw opened at run)
