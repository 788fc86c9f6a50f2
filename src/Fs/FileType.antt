-- ===== src/Fs/FileType.antt =====
-- pkg/fs/filetype.go and mediatype.go: the type of a file by its extension.
use photoprism.Prelude.{◌≡◌, refl, List, [], ◌∷◌, ◌++◌, Text, codes, text_eq, ◌==◌, if◌then◌else◌}
use photoprism.Txt.Unicode.{Unicode, lower, ascii}

pub data FileType : Type 0 where
  jpeg png gif tiff bitmap raw heif mov mp4 avi xmp aae xml yaml toml json text markdown other :
      FileType

pub data MediaType : Type 0 where
  media_raw media_image media_video media_sidecar media_other : MediaType

-- `FileExt`.
unfoldable pub file_ext : List (Text × FileType)
file_ext =
    (codes ".bmp", bitmap)
    ∷ (codes ".gif", gif)
    ∷ (codes ".tif", tiff)
    ∷ (codes ".tiff", tiff)
    ∷ (codes ".png", png)
    ∷ (codes ".crw", raw)
    ∷ (codes ".cr2", raw)
    ∷ (codes ".nef", raw)
    ∷ (codes ".arw", raw)
    ∷ (codes ".dng", raw)
    ∷ (codes ".mov", mov)
    ∷ (codes ".avi", avi)
    ∷ (codes ".mp4", mp4)
    ∷ (codes ".yml", yaml)
    ∷ (codes ".yaml", yaml)
    ∷ (codes ".jpg", jpeg)
    ∷ (codes ".jpeg", jpeg)
    ∷ (codes ".jpe", jpeg)
    ∷ (codes ".jif", jpeg)
    ∷ (codes ".jfif", jpeg)
    ∷ (codes ".jfi", jpeg)
    ∷ (codes ".thm", jpeg)
    ∷ (codes ".xmp", xmp)
    ∷ (codes ".aae", aae)
    ∷ (codes ".heif", heif)
    ∷ (codes ".heic", heif)
    ∷ (codes ".3fr", raw)
    ∷ (codes ".ari", raw)
    ∷ (codes ".bay", raw)
    ∷ (codes ".cr3", raw)
    ∷ (codes ".cap", raw)
    ∷ (codes ".data", raw)
    ∷ (codes ".dcs", raw)
    ∷ (codes ".dcr", raw)
    ∷ (codes ".drf", raw)
    ∷ (codes ".eip", raw)
    ∷ (codes ".erf", raw)
    ∷ (codes ".fff", raw)
    ∷ (codes ".gpr", raw)
    ∷ (codes ".iiq", raw)
    ∷ (codes ".k25", raw)
    ∷ (codes ".kdc", raw)
    ∷ (codes ".mdc", raw)
    ∷ (codes ".mef", raw)
    ∷ (codes ".mos", raw)
    ∷ (codes ".mrw", raw)
    ∷ (codes ".nrw", raw)
    ∷ (codes ".obm", raw)
    ∷ (codes ".orf", raw)
    ∷ (codes ".pef", raw)
    ∷ (codes ".ptx", raw)
    ∷ (codes ".pxn", raw)
    ∷ (codes ".r3d", raw)
    ∷ (codes ".raf", raw)
    ∷ (codes ".raw", raw)
    ∷ (codes ".rwl", raw)
    ∷ (codes ".rw2", raw)
    ∷ (codes ".rwz", raw)
    ∷ (codes ".sr2", raw)
    ∷ (codes ".srf", raw)
    ∷ (codes ".srw", raw)
    ∷ (codes ".x3f", raw)
    ∷ (codes ".xml", xml)
    ∷ (codes ".txt", text)
    ∷ (codes ".md", markdown)
    ∷ (codes ".json", json)
    ∷ []

-- `filepath.Ext`: from the last dot of the last element on. `found` is what the scan has since a dot.
ext_from : Text → Text → Text
ext_from found [] = found
ext_from found (c ∷ s) =
    ext_from
      (if c == b'/'
        then []
        else if c == b'.'
        then c ∷ []
        else (elim found [ [] ↦ [] | d ∷ t ↦ (d ∷ t) ++ c ∷ [] ]))
      s

unfoldable pub extension : Text → Text
unfolding ext_from
extension s = ext_from [] s

find_type : List (Text × FileType) → Text → FileType
find_type [] e = other
find_type ((k, t) ∷ rest) e = if text_eq k e then t else find_type rest e

unfoldable pub get_file_type : Unicode → Text → FileType
unfolding file_ext extension find_type
get_file_type u file_name = find_type file_ext (lower u (extension file_name))

-- `MediaTypes`.
unfoldable pub media_type_of : FileType → MediaType
media_type_of raw = media_raw
media_type_of jpeg = media_image
media_type_of png = media_image
media_type_of gif = media_image
media_type_of tiff = media_image
media_type_of bitmap = media_image
media_type_of heif = media_image
media_type_of avi = media_video
media_type_of mp4 = media_video
media_type_of mov = media_video
media_type_of xmp = media_sidecar
media_type_of xml = media_sidecar
media_type_of aae = media_sidecar
media_type_of yaml = media_sidecar
media_type_of text = media_sidecar
media_type_of json = media_sidecar
media_type_of toml = media_sidecar
media_type_of markdown = media_sidecar
media_type_of other = media_other

unfoldable pub get_media_type : Unicode → Text → MediaType
unfolding get_file_type media_type_of
get_media_type u file_name = media_type_of (get_file_type u file_name)

file_type_tests :
    (get_file_type ascii (codes "/a.b/IMG_1.CR2") ≡ raw)
    × (get_media_type ascii (codes "x/y.jpeg") ≡ media_image)
    × (get_media_type ascii (codes "x.jpg/readme") ≡ media_other)
unfolding get_media_type text_eq
file_type_tests = (refl, refl, refl)
