-- ===== src/Entity/Photo/Edit/Examples.antt =====
-- The outside world of an edit, for tests: one place, a database that refuses nothing.
use photoprism.Prelude.{true, [], codes, none, some}
use photoprism.Clock.{new_year}
use photoprism.Entity.Tables.{plain}
use photoprism.Entity.Geo.{PlaceStore, GeoService}
use photoprism.Entity.Label.Examples.{database}
use photoprism.Entity.Keyword.Examples
use photoprism.Entity.Photo.Locate.{Zones}
use photoprism.Entity.Photo.Edit.{Copier, Services}

abbrev pub geo : GeoService
geo = record {
  token = λ lat lng. codes "47a85a63";
  query = λ uid. some (record {
    id = uid;
    label = codes "Berlin, Germany";
    city = codes "Berlin";
    state = codes "Berlin";
    country = codes "de";
    keyword_string = [];
    name = [];
    category = codes "park";
    source = codes "places";
  });
  slug = λ t. t;
  creates_place = λ s p. true;
  creates_location = λ s l. true;
  creates_country = λ s c. true;
  meanwhile = λ s. s;
}

abbrev pub zones : Zones
zones = record { zones_at = λ lat lng. none; in_zone = λ zone t. none }

abbrev pub copier : Copier
copier = record {
  copy = λ f m.
      some (record m { photo_lat = f.photo_lat; photo_lng = f.photo_lng; loc_src = f.loc_src });
  copy_details = λ d e. some e;
}

abbrev pub services : Services
services = record {
  surroundings = record {
    tables = plain;
    keyword_database = Examples.database;
    now = new_year 2020;
    accepts = λ m. true;
    nearest = λ photos t. none;
  };
  zones = zones;
  geo = geo;
  label_database = database;
  copier = copier;
}

abbrev pub no_places : PlaceStore
no_places = record {
  places = [];
  locations = [];
  countries = [];
  new_places = 0;
  new_countries = 0;
}
