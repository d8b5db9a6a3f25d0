-- ===== src/Sidecar/Storage.antt =====
-- The upload to S3: sidecar/pkg/storage/s3.go. The SDK and the file system answer through `Cloud`.
use pprof_operator.Prelude.{◌+◌, Bool, not, ◌&&◌, Option, none, some, String, ◌==◌, if◌then◌else◌}
use pprof_operator.Sidecar.Metrics.{Metrics}

pub record S3Config : Type 0 where
  pub s3_bucket : String
  pub s3_region : String
  pub s3_path_prefix : String
  pub s3_endpoint : String
  pub s3_force_path_style : Bool
  pub aws_access_key_id : String
  pub aws_secret_key : String

-- The options that `loadAWSConfig` hands to the SDK. With no static credentials the SDK looks for
-- its own.
pub record AwsConfig : Type 0 where
  pub region : String
  pub credentials : Option (String × String)

unfoldable pub load_aws_config : S3Config → AwsConfig
load_aws_config c =
    if not (c.aws_access_key_id == "") && not (c.aws_secret_key == "")
    then record { region = c.s3_region; credentials = some (c.aws_access_key_id, c.aws_secret_key) }
    else record { region = c.s3_region; credentials = none }

-- A custom endpoint comes with its addressing style; without one the client has its defaults.
pub record Client : Type 0 where
  pub config : AwsConfig
  pub endpoint : Option (String × Bool)

unfoldable pub s3_client : S3Config → Client
unfolding load_aws_config
s3_client c =
    if not (c.s3_endpoint == "")
    then record {
      config = load_aws_config c;
      endpoint = some (c.s3_endpoint, c.s3_force_path_style);
    }
    else record { config = load_aws_config c; endpoint = none }

pub data UploadError : Type 0 where
  load_config_failed open_failed put_failed : UploadError

-- Whether the SDK's configuration loads, the file opens and the object is stored. Closing the file
-- may fail too: the deferred function assigns that error to `err` after the result is set, so that
-- the caller does not see it.
pub record Cloud : Type 0 where
  pub loads : Bool
  pub opens : Bool
  pub puts : Bool

-- What is asked of S3: the object's place, and the file that is its body.
pub record PutObject : Type 0 where
  pub client : Client
  pub bucket : String
  pub key : String
  pub body : String

-- The result of a call of `UploadToS3`: its error, the request that was made, and the metrics.
pub record Upload (F : Type 0) : Type 0 where
  pub error : Option UploadError
  pub request : Option PutObject
  pub metrics : Metrics F

-- `UploadToS3`.
unfoldable pub upload_to_s3 :
    {F : Type 0} → Cloud → S3Config → String → String → Metrics F → Upload F
unfolding s3_client
upload_to_s3 w c file_path s3_key m =
    if not w.loads
    then record { error = some load_config_failed; request = none; metrics = m }
    else if not w.opens
    then record { error = some open_failed; request = none; metrics = m }
    else let put : PutObject = record {
      client = s3_client c;
      bucket = c.s3_bucket;
      key = s3_key;
      body = file_path;
    } in
      if not w.puts
      then record {
        error = some put_failed;
        request = some put;
        metrics = record m { profile_upload_errors = m.profile_upload_errors + 1 };
      }
      else record {
        error = none;
        request = some put;
        metrics = record m { profiles_uploaded = m.profiles_uploaded + 1 };
      }
