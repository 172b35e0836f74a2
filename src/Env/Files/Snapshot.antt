-- ===== src/Env/Files/Snapshot.antt =====
-- A snapshot that was written is read back.
use mathlib.Core.List.{append_assoc, append-nil}
use mathlib.Core.Path.{subst}
use wsmr.Base.{
  ℕ, true, false, Option, none, some, List, [], ◌∷◌, ◌++◌, ◌≡◌, refl, ◌∙◌, ap, sym, inl, inr, arith,
  if◌then◌else◌, is_empty, Bool-cases,
}
use wsmr.Base.Text.{Text, split, split_from, split_once}
use wsmr.Base.Text.Split.{Avoids, split_from-append, split_once-append}
use wsmr.Base.Maps.{Map, insert}
use wsmr.Base.Maps.Order.{
  IsOrdered, insert-IsOrdered, insert_last, AllAbove, AllAbove-append, AllAbove-nil,
}
use wsmr.Disk.{File, missing, unreadable, content}
use wsmr.Error.{ok, ok_injective}
use wsmr.Env.Filter.{keep_name, filter_map}
use wsmr.Env.Filter.Laws.{IsWord, is_word_char_plain, keep_name-IsWord, Kept, insert-Kept, nil-Kept}
use wsmr.Env.Files.{
  nul, serialize_from, serialize_env, parse_pair, parse_chunk, parse_chunks, parse_env_nul,
  load_env,
}

-- Every value avoids the separator.
abbrev pub ValuesAvoid : ℕ → Map Text → Type 0
ValuesAvoid s [] = Unit
ValuesAvoid s ((k, v) ∷ m) = Avoids s v × ValuesAvoid s m

abbrev chunk_of : Text → Text → Text
chunk_of k v = k ++ (b'=' ∷ v)

-- The chunks of the kept entries.
chunks : Map Text → List Text
chunks [] = []
chunks ((k, v) ∷ m) = let rest = chunks m in if keep_name k then chunk_of k v ∷ rest else rest

-- What follows the first entry.
tail_of : Map Text → Text
tail_of [] = []
tail_of ((k, v) ∷ m) =
    let rest = tail_of m in if keep_name k then 0 ∷ (chunk_of k v ++ rest) else rest

serialize_from-tail : (out : Text) (m : Map Text) → serialize_from 0 out false m ≡ out ++ tail_of m
unfolding serialize_from tail_of
serialize_from-tail out [] = sym (append-nil out)
serialize_from-tail out ((k, v) ∷ m) = elim (Bool-cases (keep_name k)) [
  | inl kept ↦
      rw (kept, serialize_from-tail (out ++ 0 ∷ [] ++ k ++ b'=' ∷ [] ++ v) m) (simp append_assoc)
  | inr dropped ↦ rw dropped (serialize_from-tail out m)
]

pub IsWord-Avoids : (s : Text) → IsWord s → Avoids 0 s × Avoids b'=' s
IsWord-Avoids [] h = (tt, tt)
IsWord-Avoids (c ∷ s) (h, hs) =
    let plain = is_word_char_plain c h in
    let (zero_free, eq_free) = IsWord-Avoids s hs in ((plain.2, zero_free), (plain.0, eq_free))

chunk-Avoids : (k v : Text) → keep_name k ≡ true → Avoids 0 v → Avoids 0 (chunk_of k v)
chunk-Avoids k v kept h = go k (IsWord-Avoids k (keep_name-IsWord k kept)).0
  where
    go : (a : Text) → Avoids 0 a → Avoids 0 (a ++ (b'=' ∷ v))
    go [] _ = (omega arith, h)
    go (c ∷ a) (g, gs) = (g, go a gs)

split-tail :
    (cur : Text) (m : Map Text) → ValuesAvoid 0 m → split_from 0 cur (tail_of m) ≡ cur ∷ chunks m
unfolding split_from tail_of chunks
split-tail cur [] h = refl
split-tail cur ((k, v) ∷ m) (h, hs) = elim (Bool-cases (keep_name k)) [
  | inl kept ↦ rw kept (
      ap (λ (r : List Text). cur ∷ r)
        (split_from-append 0 [] (chunk_of k v) (tail_of m) (chunk-Avoids k v kept h)
          ∙ split-tail (chunk_of k v) m hs))
  | inr dropped ↦ rw dropped (split-tail cur m hs)
]

-- Splitting the snapshot gives the chunks, up to one empty chunk, which the reader skips.
parse-serialize :
    (acc m : Map Text)
    → ValuesAvoid 0 m
    → parse_chunks acc (split 0 (serialize_from 0 [] true m)) ≡ parse_chunks acc (chunks m)
unfolding split split_from parse_chunks parse_chunk serialize_from chunks
parse-serialize acc [] h = refl
parse-serialize acc ((k, v) ∷ m) (h, hs) = elim (Bool-cases (keep_name k)) [
  | inl kept ↦ rw kept (
      rw (serialize_from-tail (k ++ b'=' ∷ [] ++ v) m, append_assoc k (b'=' ∷ []) v)
        (ap (parse_chunks acc) (
          split_from-append 0 [] (chunk_of k v) (tail_of m) (chunk-Avoids k v kept h)
          ∙ split-tail (chunk_of k v) m hs)))
  | inr dropped ↦ rw dropped (parse-serialize acc m hs)
]

parse_chunk-chunk_of :
    (k v : Text) (acc : Map Text)
    → keep_name k ≡ true
    → parse_chunk (chunk_of k v) acc ≡ insert k v acc
unfolding parse_chunk parse_pair
parse_chunk-chunk_of k v acc kept =
    rw (split_once-append b'=' k v (IsWord-Avoids k (keep_name-IsWord k kept)).1, nonempty k)
      (rw kept)
  where
    nonempty : (a : Text) → is_empty (a ++ (b'=' ∷ v)) ≡ false
    nonempty [] = refl
    nonempty (c ∷ a) = refl

parse_chunks-filter_map :
    (acc m : Map Text)
    → IsOrdered m
    → AllAbove m acc
    → parse_chunks acc (chunks m) ≡ acc ++ filter_map m
unfolding parse_chunks chunks filter_map
parse_chunks-filter_map acc [] o a = sym (append-nil acc)
parse_chunks-filter_map acc ((k, v) ∷ m) (b, o) (a, as') = elim (Bool-cases (keep_name k)) [
  | inl kept ↦ rw kept (
      ap (λ (r : Map Text). parse_chunks r (chunks m))
        (parse_chunk-chunk_of k v acc kept ∙ insert_last k v acc a)
      ∙ parse_chunks-filter_map (acc ++ (k, v) ∷ []) m o (AllAbove-append k v m acc b a)
      ∙ append_assoc acc ((k, v) ∷ []) (filter_map m))
  | inr dropped ↦ rw dropped (parse_chunks-filter_map acc m o as')
]

-- What is written with NUL separators is read back as it was, less the names that are not kept, as
-- long as no value holds a NUL.
pub parse_env_nul-serialize_env :
    (m : Map Text)
    → IsOrdered m
    → ValuesAvoid 0 m
    → parse_env_nul (serialize_env m nul) ≡ filter_map m
unfolding parse_env_nul serialize_env
parse_env_nul-serialize_env m o h =
    parse-serialize [] m h ∙ parse_chunks-filter_map [] m o (AllAbove-nil m)

-- A map of variables as the program has it: its names are kept and in their order.
abbrev pub IsEnvMap : Map Text → Type 0
IsEnvMap m = Kept m × IsOrdered m

parse_pair-IsEnvMap :
    (o : Option (Text × Text)) (m : Map Text) → IsEnvMap m → IsEnvMap (parse_pair o m)
unfolding parse_pair
parse_pair-IsEnvMap none m h = h
parse_pair-IsEnvMap (some (k, v)) m (h, o) = elim (Bool-cases (keep_name k)) [
  | inl kept ↦ rw kept (insert-Kept k v m kept h, insert-IsOrdered k v m o)
  | inr dropped ↦ rw dropped (h, o)
]

parse_chunks-IsEnvMap : (cs : List Text) (m : Map Text) → IsEnvMap m → IsEnvMap (parse_chunks m cs)
unfolding parse_chunks parse_chunk
parse_chunks-IsEnvMap [] m h = h
parse_chunks-IsEnvMap (c ∷ cs) m h = elim (Bool-cases (is_empty c)) [
  | inl e ↦ rw e (parse_chunks-IsEnvMap cs m h)
  | inr e ↦ rw e (
      parse_chunks-IsEnvMap cs (parse_pair (split_once b'=' c) m)
        (parse_pair-IsEnvMap (split_once b'=' c) m h))
]

pub parse_env_nul-IsEnvMap : (s : Text) → IsEnvMap (parse_env_nul s)
unfolding parse_env_nul
parse_env_nul-IsEnvMap s = parse_chunks-IsEnvMap (split 0 s) [] (nil-Kept, tt)

pub load_env-IsEnvMap :
    (path : Text) (f : File) (m : Map Text) → load_env path f ≡ ok m → IsEnvMap m
unfolding load_env
load_env-IsEnvMap path missing m h = subst IsEnvMap (ok_injective h) (nil-Kept, tt)
load_env-IsEnvMap path unreadable m h = cc
load_env-IsEnvMap path (content s) m h = subst IsEnvMap (ok_injective h) (parse_env_nul-IsEnvMap s)
