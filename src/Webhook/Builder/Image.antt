-- ===== src/Webhook/Builder/Image.antt =====
-- The image of the sidecar.
use pprof_operator.Prelude.{
  ◌≡◌, ◌≢◌, refl, false, String, ◌==◌, arith, eq_iff, lookup, Bool-cases, Option-cases, inl, inr,
}
use pprof_operator.Kube.{Pod}
use pprof_operator.Text.{trim_space}
use pprof_operator.Text.Trim.{trim_space_idem}
use pprof_operator.Webhook.Annotations.{annotation_sidecar_image}
use pprof_operator.Webhook.Builder.{default_image, sidecar_image}

-- A text that names an image: not empty, with no white space around it.
abbrev pub IsImage : String → Type 0
IsImage v = (v ≢ "") × (trim_space v ≡ v)

default_image-IsImage : IsImage default_image
unfolding trim_space
default_image-IsImage = (λ h. absurd (ground (arith, h, eq_iff default_image "")), refl)

trim_space-IsImage : (v : String) → (trim_space v == "") ≡ false → IsImage (trim_space v)
trim_space-IsImage v h = (λ e. absurd (ground (arith, eq_iff (trim_space v) "")), trim_space_idem v)

-- Whatever the annotation says, blanks included, the sidecar's image is not empty and has no white
-- space around it.
pub sidecar_image-IsImage : (pod : Pod) → IsImage (sidecar_image pod)
unfolding sidecar_image
sidecar_image-IsImage pod = elim (Option-cases (lookup annotation_sidecar_image pod.annotations)) [
  | inl unset ↦ rw (unset, sidecar_image) default_image-IsImage
  | inr (v, set) ↦ elim (Bool-cases (trim_space v == "")) [
    | inl blank ↦ rw (set, sidecar_image, blank) default_image-IsImage
    | inr text ↦ rw (set, sidecar_image, text) (trim_space-IsImage v text)
  ]
]
