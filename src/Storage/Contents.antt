-- ===== src/Storage/Contents.antt =====
-- storage_backend.rs: what a write leaves, and what a read then returns.
use strawberry_background.Prelude.{
  ℕ, ◌≡◌, ◌≤◌, refl, sym, ap, ◌∙◌, String, String-eq, Option, none, some, List, [], ◌∷◌, ◌++◌, ok,
  unwrap_or, if◌then◌else◌, ==_refl, arith, length, drop,
}
use strawberry_background.Prelude.Map.{HashMap}
use strawberry_background.Storage.{
  ReadFile, WriteFile, Weather, Ending, complete, broken, late, Done, read, write, write_ended,
  write_after, written, overwrite, landed, done, read_ended, read_found, read_after,
}

append-nil : (xs : List ℕ) → xs ++ [] ≡ xs
append-nil [] = refl
append-nil (x ∷ xs) = ap (λ l. x ∷ l) (append-nil xs)

-- What is written over old contents stands at their start.
pub overwrite-append : (bytes old : List ℕ) → overwrite bytes old ≡ bytes ++ drop (length bytes) old
unfolding overwrite
overwrite-append [] old = refl
overwrite-append (b ∷ bs) [] = ap (λ l. b ∷ l) (sym (append-nil bs))
overwrite-append (b ∷ bs) (o ∷ old) = ap (λ l. b ∷ l) (overwrite-append bs old)

pub overwrite_long : (bytes old : List ℕ) → length old ≤ length bytes → overwrite bytes old ≡ bytes
unfolding overwrite
overwrite_long [] [] h = refl
overwrite_long [] (o ∷ old) h = absurd (omega (arith, h))
overwrite_long (b ∷ bs) [] h = refl
overwrite_long (b ∷ bs) (o ∷ old) h = ap (λ l. b ∷ l) (overwrite_long bs old (omega (arith, h)))

module _ (F : HashMap String (List ℕ) String-eq) where
  get-insert_same :
      (path : String) (v : List ℕ) (files : F.Map) → F.get path (F.insert path v files) ≡ some v
  get-insert_same path v files =
      F.get-insert path path v files
      ∙ ap (λ b. if b then some v else F.get path files) (==_refl path)

  -- What a successful write leaves in the file.
  Leaves : WriteFile → Weather → F.Map → Done F (Unit {0}) → Type 0
  Leaves request w files d =
      d.result ≡ ok tt
      → F.get request.path d.files
        ≡ some (
            written request.mode (landed request.ensure_mode w.ensuring w.arrived request.data')
              (unwrap_or (F.get request.path files) []))

  write_ended-Leaves :
      (request : WriteFile) (w : Weather) (files : F.Map) (e : Ending (List ℕ))
      → Leaves request w files
          (write_ended F request w (unwrap_or (F.get request.path files) []) files e)
  unfolding write_ended Leaves done
  write_ended-Leaves request w files complete h = get-insert_same request.path _ files
  write_ended-Leaves request w files (broken e left) h = cc h
  write_ended-Leaves request w files (late left) h = cc h

  pub write-leaves :
      (request : WriteFile) (w : Weather) (files : F.Map)
      → (write F request w files).result ≡ ok tt
      → F.get request.path (write F request w files).files
        ≡ some (
            written request.mode
              (landed request.ensure_mode w.ensuring w.arrived request.data')
              (unwrap_or (F.get request.path files) []))
  unfolding write write_after Leaves done
  write-leaves request w files h = go w.open_fault h
    where
      go :
          (o : Option String)
          → (write_after F o request w files).result ≡ ok tt
          → F.get request.path (write_after F o request w files).files
            ≡ some (
                written request.mode
                  (landed request.ensure_mode w.ensuring w.arrived request.data')
                  (unwrap_or (F.get request.path files) []))
      go none h = write_ended-Leaves request w files w.writing h
      go (some e) h = cc h

  pub read_calm :
      (request : ReadFile) (w : Weather) (files : F.Map) (contents : List ℕ)
      → F.get request.path files ≡ some contents
      → w.exists_fault ≡ none
      → w.reading ≡ complete
      → (read F request w files).result ≡ ok contents
  unfolding read read_after read_found read_ended done
  read_calm request w files contents e f g =
      ap (λ o. (read_after F o request.path w files).result) f
      ∙ ap (λ o. (read_found F request.path w files o).result) e
      ∙ ap (λ r. read_ended F contents r) g
