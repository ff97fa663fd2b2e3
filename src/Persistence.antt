-- ===== src/Persistence.antt =====
-- internal/adapters/persistence/file/file.go: snapshots in a JSON file. The file system, the path
-- operations and the JSON codec are parameters; `J` is the type of a file's contents.
pub mod Atomic
pub mod Restored
mod Tests
use golectra.Base.{none, ◌++◌, some, ◌==◌, ◌≢◌, Option, ℕ, ◌≡◌, if◌then◌else◌, String, List}
use Prim.Native.String.{◌++◌ as text_append}
use golectra.Ports.Flatten.{gauge_items, counter_items}
use golectra.Ports.{MetricsRepo}
use golectra.Domain.{
  invalid_type, not_found, other, Error, Result, ok, err, Exec, Metrics, pure, raise, ◌>>=◌, ◌>>◌,
}

-- encoding/json on `[]domain.Metrics`
pub record Codec (J F : Type 0) : Type 0 where
  pub encode : List (Metrics F) → Result J
  pub decode : J → Result (List (Metrics F))

-- The calls of package os and of *os.File, on a world `W`. `open` answers `none` for an error that
-- is os.ErrNotExist, and the contents that the decoder will read otherwise.
pub record FileSystem (W J : Type 0) : Type 0 where
  pub contents : W → String → Option J
  pub dir : String → String
  pub mkdir_all : String → Exec W (Unit {0})
  pub create_temp : String → Exec W String
  pub write : String → J → Exec W (Unit {0})
  pub close : String → Exec W (Unit {0})
  pub rename : String → String → Exec W (Unit {0})
  pub remove : String → Exec W (Unit {0})
  pub open_file : String → Exec W (Option J)

-- What the code relies on: a call changes no file but those it names, a new temporary file is not
-- the file at `path`, a close changes no contents, and a rename that is done moves the contents.
pub record IsFileSystem {W J : Type 0} (fs : FileSystem W J) (path : String) : Type 0 where
  pub contents-mkdir_all :
      (d : String) (w : W) → fs.contents (fs.mkdir_all d w).1 path ≡ fs.contents w path
  pub contents-create_temp :
      (d : String) (w : W) → fs.contents (fs.create_temp d w).1 path ≡ fs.contents w path
  pub create_temp_ne : (d t : String) (w : W) → (fs.create_temp d w).0 ≡ ok t → t ≢ path
  pub write-ok :
      (t : String) (j : J) (w : W)
      → (fs.write t j w).0 ≡ ok tt
      → fs.contents (fs.write t j w).1 t ≡ some j
  pub write_ne :
      (t : String) (j : J) (w : W)
      → t ≢ path
      → fs.contents (fs.write t j w).1 path ≡ fs.contents w path
  pub contents-close : (t p : String) (w : W) → fs.contents (fs.close t w).1 p ≡ fs.contents w p
  pub rename-ok :
      (t : String) (w : W)
      → (fs.rename t path w).0 ≡ ok tt
      → fs.contents (fs.rename t path w).1 path ≡ fs.contents w t
  pub rename-err :
      (t : String) (w : W) (e : Error)
      → (fs.rename t path w).0 ≡ err e
      → fs.contents (fs.rename t path w).1 path ≡ fs.contents w path
  pub remove_ne :
      (t : String) (w : W) → t ≢ path → fs.contents (fs.remove t w).1 path ≡ fs.contents w path
  pub contents-open_file :
      (p : String) (w : W) → fs.contents (fs.open_file p w).1 path ≡ fs.contents w path
  pub open_file-ok :
      (o : Option J) (w : W) → (fs.open_file path w).0 ≡ ok o → o ≡ fs.contents w path

-- `fmt.Errorf("what: %w", err)` keeps the sentinel that errors.Is finds.
abbrev pub wrap : String → Error → Error
wrap what not_found = not_found
wrap what invalid_type = invalid_type
wrap what (other t) = other (text_append what (text_append ": " t))

abbrev pub wrapped : {A : Type 0} → String → Result A → Result A
wrapped what (ok a) = ok a
wrapped what (err e) = err (wrap what e)

-- an error of the body before one of the deferred close
abbrev pub first_error : Result (Unit {0}) → Result (Unit {0}) → Result (Unit {0})
first_error (ok u) r = r
first_error (err e) r = err e

module _ {F : Type 0} where
  -- flattenSnapshot, over the entries in the orders in which the two loops visit them
  unfoldable pub flatten_snapshot : List (String × F) → List (String × ℕ) → List (Metrics F)
  flatten_snapshot gs cs = gauge_items gs ++ counter_items cs

module _ {W J F : Type 0} (fs : FileSystem W J) (codec : Codec J F) (path : String) where
  abbrev pub step : {A : Type 0} → String → Exec W A → Exec W A
  step what m w = let (r, w') = m w in (wrapped what r, w')

  abbrev pub undo : Result (Unit {0}) → (W → W) → W → Result (Unit {0}) × W
  undo (ok u) clean w = (ok u, w)
  undo (err e) clean w = (err e, clean w)

  -- A step whose failure runs the deferred function.
  abbrev pub guarded : Exec W (Unit {0}) → (W → W) → Exec W (Unit {0})
  guarded m clean w = let (r, w') = m w in undo r clean w'

  -- the deferred function after an error: the errors of its calls are dropped
  abbrev pub removed : String → W → W
  removed t w = (fs.remove t w).1

  abbrev pub closed_and_removed : String → W → W
  closed_and_removed t w = removed t (fs.close t w).1

  -- `enc.Encode(items)`: the value is encoded before the file is written
  abbrev pub put_encoded : String → Result J → Exec W (Unit {0})
  put_encoded t (ok j) = fs.write t j
  put_encoded t (err e) = raise e

  abbrev pub encode_to : String → List (Metrics F) → Exec W (Unit {0})
  encode_to t items = put_encoded t (codec.encode items)

  -- writeJSONAtomic, from the temporary file on
  unfoldable pub fill : List (Metrics F) → String → Exec W (Unit {0})
  fill items t =
      guarded (step "encode" (encode_to t items)) (closed_and_removed t)
      >> guarded (step "close tmp" (fs.close t)) (closed_and_removed t)
      >> guarded (step "rename" (fs.rename t path)) (removed t)

  unfoldable pub make_dir : Exec W (Unit {0})
  make_dir =
      if fs.dir path == ""
      then pure tt
      else if fs.dir path == "."
      then pure tt
      else step "mkdir" (fs.mkdir_all (fs.dir path))

  unfoldable pub write_json_atomic : List (Metrics F) → Exec W (Unit {0})
  unfolding fill make_dir
  write_json_atomic items =
      make_dir >> (step "create tmp" (fs.create_temp (fs.dir path)) >>= fill items)

  -- Save of the snapshot whose entries are visited in these orders
  unfoldable pub save : List (String × F) → List (String × ℕ) → Exec W (Unit {0})
  unfolding write_json_atomic flatten_snapshot
  save gs cs = write_json_atomic (flatten_snapshot gs cs)

  -- Restore into a repository
  module _ (repo : MetricsRepo F) where
    -- Decode, and UpdateMany if it did
    abbrev pub replay : Result (List (Metrics F)) → Exec repo.State (Unit {0})
    replay (ok items) = repo.update_many items
    replay (err e) = raise (wrap "decode" e)

    abbrev pub close_after : Exec repo.State (Unit {0}) → Exec (W × repo.State) (Unit {0})
    close_after m (w, s) =
        let (r, s') = m s in
        let (c, w') = fs.close path w in (first_error r (wrapped "close" c), (w', s'))

    abbrev pub opened : Result (Option J) → Exec (W × repo.State) (Unit {0})
    opened (err e) ws = (err (wrap "open" e), ws)
    opened (ok none) ws = (ok tt, ws)
    opened (ok (some j)) ws = close_after (replay (codec.decode j)) ws

    unfoldable pub restore : Exec (W × repo.State) (Unit {0})
    restore (w, s) = let (o, w') = fs.open_file path w in opened o (w', s)
