-- ===== src/Storage.antt =====
-- infrastructure/storage/storage_backend.rs with domain/models/storage_models.rs: reading and writing
-- whole files. The file system is a map from paths to contents; what its calls answer is given for
-- each call, and so is what an interrupted write leaves. Calls are taken one at a time. A `tokio` file
-- takes the bytes of `write_all` over and writes them later, so how many of them have arrived is
-- given, unless a flush or a sync that succeeds follows.
pub mod Contents
use strawberry_background.Prelude.{
  ℕ, String, String-eq, Bool, true, false, Option, none, some, List, [], ◌∷◌, ◌++◌, Result, ok, err,
  unwrap_or, take,
}
use strawberry_background.Prelude.Map.{HashMap}

-- A timeout says nothing more than that it passed.
pub data StorageError : Type 0 where
  file_required directory_required not_exist io_error : String → StorageError
  timeout : StorageError

pub data WriteMode : Type 0 where
  cover append : WriteMode

pub data EnsureMode : Type 0 where
  flush sync_data sync_all : EnsureMode

pub record ReadFile : Type 0 where
  pub path : String
  pub timeout : ℕ

pub record WriteFile : Type 0 where
  pub path : String
  pub mode : WriteMode
  pub timeout : ℕ
  pub ensure_mode : Option EnsureMode
  pub data' : List ℕ

-- 60 s
abbrev pub one_minute : ℕ
one_minute = 60000000000

abbrev pub read_path : String → ReadFile
read_path path = record { path = path; timeout = one_minute }

-- The stages that the monitor hears of.
pub data EventStage : Type 0 where
  started running finished failed : EventStage

-- How an operation of the file system under a timeout ends; an interrupted write leaves contents.
pub data Ending (A : Type 0) : Type 0 where
  complete : Ending A
  broken : String → A → Ending A
  late : A → Ending A

-- What the file system answers to the calls that one operation makes.
pub record Weather : Type 0 where
  pub exists_fault : Option String
  pub directory_fault : Option String
  pub create_fault : Option String
  pub sync_fault : Option String
  pub open_fault : Option String
  pub reading : Ending (Unit {0})
  pub writing : Ending (List ℕ)
  -- How many of the bytes of a write that is not ensured are in the file, if not all.
  pub arrived : Option ℕ
  pub ensuring : Ending (Unit {0})

-- Bytes written at the start of a file that is opened without being emptied.
pub overwrite : List ℕ → List ℕ → List ℕ
overwrite [] old = old
overwrite (b ∷ bs) [] = b ∷ bs
overwrite (b ∷ bs) (_ ∷ old) = b ∷ overwrite bs old

abbrev pub part_of : Option ℕ → List ℕ → List ℕ
part_of none bytes = bytes
part_of (some n) bytes = take n bytes

-- The bytes that are in the file when the call is over.
abbrev pub landed : Option EnsureMode → Ending (Unit {0}) → Option ℕ → List ℕ → List ℕ
landed none _ arrived bytes = part_of arrived bytes
landed (some _) complete arrived bytes = bytes
landed (some _) (broken _ _) arrived bytes = part_of arrived bytes
landed (some _) (late _) arrived bytes = part_of arrived bytes

unfoldable pub written : WriteMode → List ℕ → List ℕ → List ℕ
unfolding overwrite
written cover bytes old = overwrite bytes old
written append bytes old = old ++ bytes

module _ (F : HashMap String (List ℕ) String-eq) where
  pub record Done (A : Type 0) : Type 0 where
    pub files : F.Map
    pub events : List EventStage
    pub result : Result A StorageError

  read_ended : List ℕ → Ending (Unit {0}) → Result (List ℕ) StorageError
  read_ended contents complete = ok contents
  read_ended contents (broken e _) = err (io_error e)
  read_ended contents (late _) = err timeout

  reported : {A : Type 0} → Result A StorageError → List EventStage
  reported (ok _) = started ∷ finished ∷ []
  reported (err _) = started ∷ failed ∷ []

  done : {A : Type 0} → F.Map → Result A StorageError → Done A
  unfolding reported
  done files result = record { files = files; events = reported result; result = result }

  read_found : String → Weather → F.Map → Option (List ℕ) → Done (List ℕ)
  unfolding read_ended done
  read_found path w files none = done files (err (not_exist path))
  read_found path w files (some contents) = done files (read_ended contents w.reading)

  read_after : Option String → String → Weather → F.Map → Done (List ℕ)
  unfolding read_found
  read_after (some e) path w files = record {
    files = files;
    events = [];
    result = err (io_error e);
  }
  read_after none path w files = read_found path w files (F.get path files)

  unfoldable pub read : ReadFile → Weather → F.Map → Done (List ℕ)
  unfolding read_after
  read request w files = read_after w.exists_fault request.path w files

  ensured : Option EnsureMode → Ending (Unit {0}) → Result (Unit {0}) StorageError
  ensured none _ = ok tt
  ensured (some _) complete = ok tt
  ensured (some _) (broken e _) = err (io_error e)
  ensured (some _) (late _) = err timeout

  write_ended : WriteFile → Weather → List ℕ → F.Map → Ending (List ℕ) → Done (Unit {0})
  unfolding ensured written done
  write_ended request w old files complete =
      done
        (F.insert request.path
          (written request.mode (landed request.ensure_mode w.ensuring w.arrived request.data') old)
          files)
        (ensured request.ensure_mode w.ensuring)
  write_ended request w old files (broken e left) =
      done (F.insert request.path left files) (err (io_error e))
  write_ended request w old files (late left) =
      done (F.insert request.path left files) (err timeout)

  -- Opening creates a file that is missing.
  write_after : Option String → WriteFile → Weather → F.Map → Done (Unit {0})
  unfolding write_ended done
  write_after (some e) request w files = done files (err (io_error e))
  write_after none request w files =
      write_ended request w (unwrap_or (F.get request.path files) []) files w.writing

  unfoldable pub write : WriteFile → Weather → F.Map → Done (Unit {0})
  unfolding write_after
  write request w files = write_after w.open_fault request w files
