-- ===== src/Webhook/Annotations.antt =====
-- The keys of the pod annotations: internal/webhook/v1/constants.go.
use pprof_operator.Prelude.{String}

abbrev pub annotation_profiler_enable : String
annotation_profiler_enable = "profiler.pprof.dev/enable"

abbrev pub annotation_profiler_name : String
annotation_profiler_name = "profiler.pprof.dev/name"

abbrev pub annotation_target_container : String
annotation_target_container = "profiler.pprof.dev/target_container"

abbrev pub annotation_sidecar_image : String
annotation_sidecar_image = "profiler.pprof.dev/sidecar_image"

abbrev pub annotation_scrape_url : String
annotation_scrape_url = "profiler.pprof.dev/scrape_url"

abbrev pub annotation_s3_endpoint : String
annotation_s3_endpoint = "profiler.pprof.dev/s3_endpoint"

abbrev pub annotation_s3_force_path_style : String
annotation_s3_force_path_style = "profiler.pprof.dev/s3_force_path_style"

abbrev pub annotation_scrape_auth_type : String
annotation_scrape_auth_type = "profiler.pprof.dev/scrape_auth_type"

abbrev pub annotation_scrape_auth_username : String
annotation_scrape_auth_username = "profiler.pprof.dev/scrape_auth_username"

abbrev pub annotation_scrape_auth_password : String
annotation_scrape_auth_password = "profiler.pprof.dev/scrape_auth_password"

abbrev pub annotation_scrape_auth_secret : String
annotation_scrape_auth_secret = "profiler.pprof.dev/scrape_auth_secret"

abbrev pub annotation_scrape_auth_username_key : String
annotation_scrape_auth_username_key = "profiler.pprof.dev/scrape_auth_username_key"

abbrev pub annotation_scrape_auth_password_key : String
annotation_scrape_auth_password_key = "profiler.pprof.dev/scrape_auth_password_key"

abbrev pub annotation_debug : String
annotation_debug = "profiler.pprof.dev/debug"

abbrev pub annotation_sidecar_metrics_port : String
annotation_sidecar_metrics_port = "profiler.pprof.dev/sidecar_metrics_port"
