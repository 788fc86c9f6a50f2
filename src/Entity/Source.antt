-- ===== src/Entity/Source.antt =====
-- internal/entity/const.go: who set a value, and the kinds of photos. The values are strings.
use photoprism.Prelude.{Text, [], codes}

abbrev pub src_auto : Text
src_auto = []

abbrev pub src_manual : Text
src_manual = codes "manual"

abbrev pub src_estimate : Text
src_estimate = codes "estimate"

abbrev pub src_name : Text
src_name = codes "name"

abbrev pub src_meta : Text
src_meta = codes "meta"

abbrev pub src_xmp : Text
src_xmp = codes "xmp"

abbrev pub src_yaml : Text
src_yaml = codes "yaml"

abbrev pub src_location : Text
src_location = codes "location"

abbrev pub src_image : Text
src_image = codes "image"

abbrev pub title_unknown : Text
title_unknown = codes "Unknown"

abbrev pub type_image : Text
type_image = codes "image"

abbrev pub type_live : Text
type_live = codes "live"

abbrev pub type_video : Text
type_video = codes "video"

abbrev pub type_raw : Text
type_raw = codes "raw"

abbrev pub type_text : Text
type_text = codes "text"
