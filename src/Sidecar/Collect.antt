-- ===== src/Sidecar/Collect.antt =====
-- One profile, from the target container to S3: `collectAndUploadProfile` of sidecar/cmd/main.go.
-- The outside world answers through `World`; what is asked of it is a list of effects, in order,
-- the deferred ones included.
pub mod Effects
pub mod Counting
pub mod Key
use pprof_operator.Prelude.{
  ℕ, Bool, true, false, not, ◌&&◌, Option, none, some, List, [], ◌∷◌, ◌++◌, String, ◌<>◌, ◌==◌, eqb,
  if◌then◌else◌,
}
use pprof_operator.Prelude.Int.{ℤ, pos, ◌+ℤ◌, ◌*ℤ◌, wrap64}
use pprof_operator.Text.FilePath.{join}
use pprof_operator.Sidecar.Types.{ScrapTarget, Auth, BasicAuth}
use pprof_operator.Sidecar.Config.{Config, second}
use pprof_operator.Sidecar.Metrics.{Metrics, inc}
use pprof_operator.Sidecar.Storage.{S3Config, UploadError, PutObject, Upload, Cloud, upload_to_s3}

pub data CollectError : Type 0 where
  temp_dir_failed request_failed send_failed create_failed write_failed no_scrap_url : CollectError
  non_ok_response : ℕ → CollectError
  upload_failed : UploadError → CollectError
  remove_failed : CollectError

-- The request for a profile: where, with which credentials, and the client's timeout.
pub record ProfileRequest : Type 0 where
  pub url : String
  pub basic_auth : Option (String × String)
  pub timeout : ℤ

pub data Effect : Type 0 where
  make_dir remove_dir : String → Effect
  send : ProfileRequest → Effect
  close_body : Effect
  create_file write_file close_file : String → Effect
  put_object : PutObject → Effect

-- The answers to one call: the temporary directory and whether it can be removed, the clock's text,
-- whether the request is well formed, the status of the response if there is one, whether the file
-- is created and written, and the answers to the upload. Closing the body or the file may fail too;
-- the deferred functions assign that error to a variable that no caller sees.
pub record World : Type 0 where
  pub temp_dir : Option String
  pub removes : Bool
  pub timestamp : String
  pub new_request : Bool
  pub response : Option ℕ
  pub creates : Bool
  pub writes : Bool
  pub cloud : Cloud

unfoldable pub profile_filename : Config → String → String → String
profile_filename c profile_type timestamp =
    profile_type
    <> ("-" <> (c.pod_name <> ("-" <> (c.target_container <> ("-" <> (timestamp <> ".pprof"))))))

abbrev non_empty_pair : String → String → Option (String × String)
non_empty_pair u p = if not (u == "") && not (p == "") then some (u, p) else none

abbrev credentials_of : Option BasicAuth → Option (String × String)
credentials_of none = none
credentials_of (some b) = non_empty_pair b.username b.password

-- The credentials that `SetBasicAuth` is given, if it is called.
unfoldable pub request_auth : ScrapTarget → Option (String × String)
request_auth t = elim t.auth [ none ↦ none | some a ↦ credentials_of a.basic_auth ]

unfoldable pub profile_request : Config → String → ProfileRequest
unfolding request_auth
profile_request c profile_type = record {
  url = c.scrap_target.scrape_url <> ("/" <> profile_type);
  basic_auth = request_auth c.scrap_target;
  timeout = wrap64 (wrap64 (c.profile_duration +ℤ pos 10) *ℤ second);
}

unfoldable pub s3_key : Config → String → String
s3_key c filename =
    if not (c.s3_path_prefix == "")
    then join (c.s3_path_prefix ∷ c.pod_name ∷ filename ∷ [])
    else filename

abbrev pub s3_config : Config → S3Config
s3_config c = record {
  s3_bucket = c.s3_bucket;
  s3_region = c.s3_region;
  s3_path_prefix = c.s3_path_prefix;
  s3_endpoint = c.s3_endpoint;
  s3_force_path_style = c.s3_force_path_style;
  aws_access_key_id = c.aws_access_key_id;
  aws_secret_key = c.aws_secret_key;
}

-- The part under `if config.ScrapTarget.ScrapeURL != ""`: its error, its effects, and the calls
-- that it defers to the function's end, the last deferred first.
pub record Fetched : Type 0 where
  pub error : Option CollectError
  pub effects : List Effect
  pub deferred : List Effect

unfoldable pub fetch : World → Config → String → String → Fetched
unfolding profile_request
fetch w c profile_type path =
    if c.scrap_target.scrape_url == ""
    then record { error = some no_scrap_url; effects = []; deferred = [] }
    else if not w.new_request
    then record { error = some request_failed; effects = []; deferred = [] }
    else let sent = send (profile_request c profile_type) in
      elim w.response [
        | none ↦ record { error = some send_failed; effects = sent ∷ []; deferred = [] }
        | some status ↦
            if not (eqb status 200)
            then record {
              error = some (non_ok_response status);
              effects = sent ∷ [];
              deferred = close_body ∷ [];
            }
            else if not w.creates
            then record {
              error = some create_failed;
              effects = sent ∷ create_file path ∷ [];
              deferred = close_body ∷ [];
            }
            else record {
              error = if w.writes then none else some write_failed;
              effects = sent ∷ create_file path ∷ write_file path ∷ [];
              deferred = close_file path ∷ close_body ∷ [];
            }
      ]

-- What a call leaves: its error, what it asked for, and the metrics.
pub record Collected (F : Type 0) : Type 0 where
  pub error : Option CollectError
  pub effects : List Effect
  pub metrics : Metrics F

abbrev upload_error : Option UploadError → Option CollectError
upload_error none = none
upload_error (some e) = some (upload_failed e)

abbrev pub put_effect : Option PutObject → List Effect
put_effect none = []
put_effect (some p) = put_object p ∷ []

-- A failure to remove the directory is reported if there is no other error.
abbrev after_removal : Bool → Option CollectError → Option CollectError
after_removal true e = e
after_removal false none = some remove_failed
after_removal false (some e) = some e

module _ {F : Type 0} (w : World) (c : Config) (profile_type : String) (m : Metrics F) where
  -- From the directory on; `path` is the profile's file.
  unfoldable pub run : String → String → String → Collected F
  run dir filename path =
      let f = fetch w c profile_type path in
      elim f.error [
        | some e ↦ record {
          error = after_removal w.removes (some e);
          effects = make_dir dir ∷ (f.effects ++ (f.deferred ++ (remove_dir dir ∷ [])));
          metrics = m;
        }
        | none ↦
            let u =
              upload_to_s3 w.cloud (s3_config c) path (s3_key c filename)
                (record m { profiles_generated = inc profile_type m.profiles_generated }) in
            record {
              error = after_removal w.removes (upload_error u.error);
              effects =
                  make_dir dir
                  ∷ (f.effects ++ (put_effect u.request ++ (f.deferred ++ (remove_dir dir ∷ []))));
              metrics = u.metrics;
            }
      ]

  unfoldable pub collect_and_upload_profile : Collected F
  unfolding run
  collect_and_upload_profile = elim w.temp_dir [
    | none ↦ record { error = some temp_dir_failed; effects = []; metrics = m }
    | some dir ↦
        let filename = profile_filename c profile_type w.timestamp in
        run dir filename (join (dir ∷ filename ∷ []))
  ]
