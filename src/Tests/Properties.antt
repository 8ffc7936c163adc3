-- ===== src/Tests/Properties.antt =====
-- The theorems on properties at a concrete list.
use deviceatlas_cloud_c.Prelude.{◌≡◌, Option, none, some, [], ◌∷◌, codes, pos, failed}
use deviceatlas_cloud_c.Property.{
  Property, PropertyHead, num, text, long_type, string_type, found, find_property,
}
use deviceatlas_cloud_c.Property.Search.{Finds, find_property-Finds}
use deviceatlas_cloud_c.Tests.Samples.{small_pool}

abbrev two_properties : PropertyHead
two_properties = record {
  cachesource = codes "cloud";
  pool = small_pool;
  list =
      record { name = codes "model"; value = text (codes "N9"); type = string_type }
      ∷ record { name = codes "yearReleased"; value = num (pos 2011); type = long_type }
      ∷ [];
}

find_property-Finds_example :
    ((r : Option Property) × Finds (codes "MODEL") two_properties.list r
      × (find_property two_properties (codes "MODEL") (some none) ≡ found r))
    × (find_property two_properties (codes "MODEL") none ≡ (failed, none))
find_property-Finds_example = find_property-Finds two_properties (codes "MODEL") none
