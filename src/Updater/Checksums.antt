-- ===== src/Updater/Checksums.antt =====
-- No update is used whose archive was not checked (internal/updater/updater.go).
use serverkit_agent.Base.{
  true, false, not, contains, &&-eq-true, [], ◌∷◌, Option, none, some, Text, text_eq, ◌≡◌, refl,
  inl, inr, Bool-cases, Dict, lookup, All,
}
use serverkit_agent.Base.Results.{
  Result, success, failure, Ensures, holds, failed, Ensures-bind, Ensures-require, Ensures-success,
}
use serverkit_agent.Base.Parts.{Within, contains_sound}
use serverkit_agent.Updater.{
  not_extracted, Platform, UpdateError, no_download_url, insecure_url, no_checksums_url,
  fetch_failed, not_hashed, entries_of, names_platform, expected_hash, compare_hash, match_entries,
  match_checksum, is_secure, of_text, verify_checksum, temp_dir, downloaded, archive_name,
  download_update,
}

module _ (host : Platform) where
  -- What ranging over a map gives are its entries.
  abbrev pub Ranges : Dict Text → Type 0
  Ranges d = All (λ (e : Text × Text). lookup e.0 d ≡ some e.1) (host.ranged d)

  -- An entry of a checksums file that has the hash, and whose name has the name of the system and that of the
  -- architecture in it.
  abbrev pub Listed : Text → Dict Text → Type 0
  Listed actual d =
      (name hash : Text) × (lookup name d ≡ some hash)
      × Within name host.goos
      × Within name host.goarch
      × (host.equal_fold actual hash ≡ true)

  expected_hash-lookup :
      (d es : Dict Text)
      → All (λ (e : Text × Text). lookup e.0 d ≡ some e.1) es
      → text_eq (expected_hash host es) [] ≡ false
      → (name : Text) × (lookup name d ≡ some (expected_hash host es))
        × Within name host.goos
        × Within name host.goarch
  unfolding expected_hash text_eq
  expected_hash-lookup d [] h some_hash = absurd (cc some_hash)
  expected_hash-lookup d ((name, hash) ∷ es) (h, hs) some_hash =
      elim (Bool-cases (names_platform host name)) [
        | inl e ↦
            let (in_system, in_architecture) =
              &&-eq-true (contains name host.goos) (contains name host.goarch) e in
            (
              name,
              rw e h,
              contains_sound name host.goos in_system,
              contains_sound name host.goarch in_architecture,
            )
        | inr e ↦
            let (other, found, system, architecture) =
              expected_hash-lookup d es hs (rw (e, expected_hash) at some_hash) in
            (other, rw e found, system, architecture)
      ]

  compare_hash-Ensures :
      (actual : Text) (d : Dict Text)
      → Ranges d
      → Ensures
          (λ (u : Unit {0}). Listed actual d)
          (compare_hash host actual (expected_hash host (host.ranged d)))
  compare_hash-Ensures actual d ranges =
      elim (Bool-cases (text_eq (expected_hash host (host.ranged d)) [])) [
        | inl e ↦ rw e failed
        | inr e ↦ elim (Bool-cases (host.equal_fold actual (expected_hash host (host.ranged d)))) [
          | inr f ↦ rw (e, f) failed
          | inl f ↦
              let (name, found, system, architecture) =
                expected_hash-lookup d (host.ranged d) ranges e in
              rw (e, f)
                (holds (name, expected_hash host (host.ranged d), found, system, architecture, f))
        ]
      ]

  match_entries-Ensures :
      (actual : Text) (d : Dict Text)
      → Ranges d
      → Ensures (λ (u : Unit {0}). Listed actual d) (match_entries host actual d)
  unfolding match_entries
  match_entries-Ensures actual [] ranges = failed
  match_entries-Ensures actual (e ∷ es) ranges = compare_hash-Ensures actual (e ∷ es) ranges

  -- In whatever order Go ranges over the entries, a hash that passes is the hash of an entry whose name contains both GOOS
  -- and GOARCH, as that of `linux-arm64` does on linux/arm: a file without such an entry, or without any, does not pass.
  pub match_checksum-Listed :
      (actual body : Text)
      → Ranges (entries_of body)
      → match_checksum host actual body ≡ success tt
      → Listed actual (entries_of body)
  unfolding match_checksum
  match_checksum-Listed actual body ranges h =
      Ensures-success (match_entries host actual (entries_of body)) tt
        (match_entries-Ensures actual (entries_of body) ranges) h

  -- What an update that is given out went through.
  abbrev pub Verified : Text → Text → Text → Type 0
  Verified url checksums_url path =
      (tmp body actual : Text) × (is_secure host url ≡ true)
      × (is_secure host checksums_url ≡ true)
      × (host.mkdir_temp ≡ some tmp)
      × (host.download url (host.joined tmp (archive_name host)) ≡ none)
      × (host.fetch checksums_url ≡ success body)
      × (host.hash_of (host.joined tmp (archive_name host)) ≡ success actual)
      × (match_checksum host actual body ≡ success tt)
      × (host.extract (host.joined tmp (archive_name host)) tmp ≡ success path)

  -- What verifying an archive went through.
  abbrev pub Checked : Text → Text → Type 0
  Checked archive url =
      (body actual : Text) × (is_secure host url ≡ true)
      × (host.fetch url ≡ success body)
      × (host.hash_of archive ≡ success actual)
      × (match_checksum host actual body ≡ success tt)

  of_text-success :
      (wrap : Text → UpdateError) (r : Result Text Text) (t : Text)
      → of_text host wrap r ≡ success t
      → r ≡ success t
  of_text-success wrap (success s) t h = cc h
  of_text-success wrap (failure e) t h = absurd (cc h)

  on_success :
      {A : Type 0} {P : A → Type 0} (r : Result UpdateError A)
      → ((a : A) → r ≡ success a → P a)
      → Ensures P r
  on_success (success a) h = holds (h a refl)
  on_success (failure e) h = failed

  verify_checksum-Ensures :
      (archive url : Text)
      → Ensures (λ (u : Unit {0}). Checked archive url) (verify_checksum host archive url)
  unfolding verify_checksum
  verify_checksum-Ensures archive url =
      Ensures-require (is_secure host url) (insecure_url url) _ (λ secure.
        Ensures-bind (of_text host fetch_failed (host.fetch url)) _ (λ body fetched.
          Ensures-bind (of_text host not_hashed (host.hash_of archive)) _ (λ actual hashed.
            on_success (match_checksum host actual body) (λ u matched. (
              body,
              actual,
              secure,
              of_text-success fetch_failed (host.fetch url) body fetched,
              of_text-success not_hashed (host.hash_of archive) actual hashed,
              matched,
            )))))

  temp_dir-success : (o : Option Text) (t : Text) → temp_dir host o ≡ success t → o ≡ some t
  temp_dir-success none t h = absurd (cc h)
  temp_dir-success (some s) t h = cc h

  downloaded-success : (o : Option Text) (u : Unit {0}) → downloaded host o ≡ success u → o ≡ none
  downloaded-success none u h = refl
  downloaded-success (some e) u h = absurd (cc h)

  download_update-Ensures :
      (url checksums_url : Text)
      → Ensures
          (λ (path : Text). Verified url checksums_url path)
          (download_update host url checksums_url)
  unfolding download_update
  download_update-Ensures url checksums_url =
      Ensures-require (not (text_eq url [])) no_download_url _ (λ given.
        Ensures-require (is_secure host url) (insecure_url url) _ (λ secure.
          Ensures-bind (temp_dir host host.mkdir_temp) _ (λ tmp made.
            Ensures-bind (downloaded host (host.download url (host.joined tmp (archive_name host))))
              _
              (λ u fetched.
                Ensures-require (not (text_eq checksums_url [])) no_checksums_url _ (λ given.
                  Ensures-bind
                    (verify_checksum host (host.joined tmp (archive_name host)) checksums_url) _
                    (λ u verified.
                      let archive = host.joined tmp (archive_name host) in
                      let (body, actual, sums_secure, got, hashed, matched) =
                        Ensures-success {P = λ (u : Unit {0}). Checked archive checksums_url}
                          (verify_checksum host archive checksums_url) tt
                          (verify_checksum-Ensures archive checksums_url) verified in
                      on_success _ (λ path extracted. (
                        tmp,
                        body,
                        actual,
                        secure,
                        sums_secure,
                        temp_dir-success host.mkdir_temp tmp made,
                        downloaded-success (host.download url archive) u fetched,
                        got,
                        hashed,
                        matched,
                        of_text-success not_extracted (host.extract archive tmp) path extracted,
                      ))))))))

  -- An update is given out only after its archive, fetched from a secure URL, was hashed and the hash was matched against
  -- a checksums file from a secure URL, and it is what was extracted from that archive; there is no path around the check.
  pub download_update-Verified :
      (url checksums_url path : Text)
      → download_update host url checksums_url ≡ success path
      → Verified url checksums_url path
  download_update-Verified url checksums_url path h =
      Ensures-success (download_update host url checksums_url) path
        (download_update-Ensures url checksums_url) h
