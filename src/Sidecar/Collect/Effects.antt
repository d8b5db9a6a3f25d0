-- ===== src/Sidecar/Collect/Effects.antt =====
-- What a collection does, and when it succeeds.
use pprof_operator.Prelude.{
  ◌≡◌, ◌≢◌, ◌↔◌, ◌∙◌, ap, Bool, false, ◌||◌, refl, Bool, true, false, none, some, List, [], ◌∷◌,
  ◌++◌, append_assoc, String, arith, eq_iff, Option-cases, inl, inr,
}
use pprof_operator.Text.FilePath.{join}
use pprof_operator.Sidecar.Config.{Config}
use pprof_operator.Sidecar.Metrics.{Metrics, inc}
use pprof_operator.Sidecar.Storage.{s3_client, upload_to_s3}
use pprof_operator.Sidecar.Collect.{
  World, Effect, make_dir, remove_dir, send, close_body, create_file, write_file, close_file,
  put_object, put_effect, fetch, profile_filename, profile_request, s3_key, s3_config, run,
  Collected, collect_and_upload_profile,
}

-- Every answer is the good one.
pub record AllGood (w : World) (c : Config) : Type 0 where
  pub has_dir : w.temp_dir ≢ none
  pub has_url : c.scrap_target.scrape_url ≢ ""
  pub asks : w.new_request ≡ true
  pub answers : w.response ≡ some 200
  pub creates : w.creates ≡ true
  pub writes : w.writes ≡ true
  pub loads : w.cloud.loads ≡ true
  pub opens : w.cloud.opens ≡ true
  pub puts : w.cloud.puts ≡ true
  pub removes : w.removes ≡ true

-- The answers that a collection needs before it turns to S3.
pub record IsFetched (w : World) (c : Config) : Type 0 where
  pub has_dir : w.temp_dir ≢ none
  pub has_url : c.scrap_target.scrape_url ≢ ""
  pub asks : w.new_request ≡ true
  pub answers : w.response ≡ some 200
  pub creates : w.creates ≡ true
  pub writes : w.writes ≡ true
  pub loads : w.cloud.loads ≡ true
  pub opens : w.cloud.opens ≡ true

abbrev is_put : Effect → Bool
is_put (put_object p) = true
is_put _ = false

abbrev pub stores : List Effect → Bool
stores [] = false
stores (e ∷ es) = is_put e || stores es

module _ {F : Type 0} (w : World) (c : Config) (t : String) (m : Metrics F) where
  run-remove_dir :
      (dir filename path : String)
      → (es : List Effect) × ((run w c t m dir filename path).effects
          ≡ make_dir dir ∷ (es ++ (remove_dir dir ∷ [])))
  unfolding run
  run-remove_dir dir filename path =
      let f = fetch w c t path in
      let u =
        upload_to_s3 w.cloud (s3_config c) path (s3_key c filename)
          (record m { profiles_generated = inc t m.profiles_generated }) in
      elim (Option-cases f.error) [
        | inl fine ↦ (
          f.effects ++ (put_effect u.request ++ f.deferred),
          rw (fine, run, append_assoc) (rw append_assoc refl),
        )
        | inr (e, bad) ↦ (f.effects ++ f.deferred, rw (bad, run, append_assoc) refl)
      ]

  collect_of_dir :
      (dir : String)
      → w.temp_dir ≡ some dir
      → let filename = profile_filename c t w.timestamp in
        collect_and_upload_profile w c t m ≡ run w c t m dir filename (join (dir ∷ filename ∷ []))
  unfolding collect_and_upload_profile
  collect_of_dir dir h = ground arith

  -- Whatever fails, a directory that was made is removed, and that is the last thing done.
  pub collect-remove_dir :
      (dir : String)
      → w.temp_dir ≡ some dir
      → (es : List Effect) × ((collect_and_upload_profile w c t m).effects
          ≡ make_dir dir ∷ (es ++ (remove_dir dir ∷ [])))
  collect-remove_dir dir h =
      let filename = profile_filename c t w.timestamp in
      let (es, e) = run-remove_dir dir filename (join (dir ∷ filename ∷ [])) in
      (es, ap (λ (r : Collected F). r.effects) (collect_of_dir dir h) ∙ e)

  collect_good : AllGood w c → (collect_and_upload_profile w c t m).error ≡ none
  unfolding collect_and_upload_profile fetch upload_to_s3
  collect_good g = ground (arith, eq_iff c.scrap_target.scrape_url "")

  good_of_collect : (collect_and_upload_profile w c t m).error ≡ none → AllGood w c
  unfolding collect_and_upload_profile fetch upload_to_s3
  good_of_collect h = ground (arith, eq_iff c.scrap_target.scrape_url "")

  -- A collection reports no error exactly when each of its steps went well: the directory, the URL,
  -- the request, a response with status 200, the file, the upload and the removal.
  pub collect_ok_iff : ((collect_and_upload_profile w c t m).error ≡ none) ↔ AllGood w c
  collect_ok_iff = (good_of_collect, collect_good)

  -- The whole sequence of a collection that went well: the profile of the type asked for is fetched
  -- into a file of the directory, that file is stored under the key in the bucket before it is
  -- closed, and the directory is removed at the end.
  pub collect_ok_effects :
      (dir : String)
      → w.temp_dir ≡ some dir
      → AllGood w c
      → let filename = profile_filename c t w.timestamp in
        let path = join (dir ∷ filename ∷ []) in
        (collect_and_upload_profile w c t m).effects
        ≡ make_dir dir
          ∷ send (profile_request c t)
          ∷ create_file path
          ∷ write_file path
          ∷ put_object (record {
            client = s3_client (s3_config c);
            bucket = c.s3_bucket;
            key = s3_key c filename;
            body = path;
          })
          ∷ close_file path
          ∷ close_body
          ∷ remove_dir dir
          ∷ []
  unfolding collect_and_upload_profile fetch upload_to_s3
  collect_ok_effects dir h g = ground (arith, eq_iff c.scrap_target.scrape_url "")

  -- A collection asks S3 to store something exactly when the container answered with status 200,
  -- the answer was written to the file, and the upload found its configuration and that file.
  pub collect-stores_iff :
      (stores (collect_and_upload_profile w c t m).effects ≡ true) ↔ IsFetched w c
  unfolding collect_and_upload_profile fetch upload_to_s3
  collect-stores_iff = (
    λ h. ground (arith, eq_iff c.scrap_target.scrape_url ""),
    λ g. ground (arith, eq_iff c.scrap_target.scrape_url ""),
  )
