-- ===== src/Storage/Escapes.antt =====
-- crates/vdsm-storage/src/volumes.rs: which directory `image_delete` removes.
use vdsm_rs.Base.{◌≡◌, refl, some, [], ◌∷◌, Text, codes, ok}
use vdsm_rs.Storage.Backend.{file_backend, sd_backend}
use vdsm_rs.Storage.Paths.{join, image_dir}
use vdsm_rs.Storage.Volumes.{image_delete, delete_image}
use vdsm_rs.Storage.{Json, Host, str_or, empty_object}

module _ {V W : Type 0} (json : Json V) (host : Host W) where
  -- On a file domain, an image id that begins with a slash is itself the directory that is removed,
  -- whatever the domain.
  pub image_delete_escapes :
      (params : V) (w w' : W) (sd_path s : Text)
      → str_or json [] (codes "imageID") params ≡ b'/' ∷ s
      → sd_backend host (str_or json [] (codes "storagedomainID") params) w
        ≡ (some (file_backend sd_path), w')
      → image_delete json host params w
        ≡ (ok (empty_object json), host.remove_dir_all (b'/' ∷ s) w')
  unfolding image_delete delete_image image_dir join
  image_delete_escapes params w w' sd_path s i b = rw (i, b) refl
