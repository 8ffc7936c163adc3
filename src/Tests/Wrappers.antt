-- ===== src/Tests/Wrappers.antt =====
-- The theorems on the wrappers.
use deviceatlas_cloud_c.Prelude.{
  ◌≡◌, refl, Option, none, some, [], ◌∷◌, Bytes, true, false, codes, pos, if◌then◌else◌, same_text,
  Ensures, IfSome, Returns, crashes,
}
use deviceatlas_cloud_c.Property.{Property, long_type, string_type, num, text}
use deviceatlas_cloud_c.Cache.{mock, all_of}
use deviceatlas_cloud_c.Config.{stderr}
use deviceatlas_cloud_c.Client.{Config}
use deviceatlas_cloud_c.PyWrapper.{
  Python, PyValue, py_int, py_str, fill_props, DaCloudObject, load_config, dealloc, py_value,
  decref, get_cache_id,
}
use deviceatlas_cloud_c.PyWrapper.Filling.{KeepsItems, Holds, fill_props-Holds}
use deviceatlas_cloud_c.PyWrapper.References.{start, drop, dealloc_crashes}
use deviceatlas_cloud_c.PyWrapper.Loading.{Loads, load_config-Loads}
use deviceatlas_cloud_c.CppWrapper.{lookup, insert_each}
use deviceatlas_cloud_c.CppWrapper.Lookup.{insert_each-first_named}
use deviceatlas_cloud_c.Tests.Worlds.{endless}
use deviceatlas_cloud_c.Tests.Ranking.{insertion_sort, probed}
use deviceatlas_cloud_c.Tests.Clients.{plugins, platform, settings}

-- A dictionary is a function.
abbrev python : Python
python = record {
  Dict = Bytes → Option PyValue;
  new_dict = λ key. none;
  set_item = λ d key v other. if same_text other key then some v else d other;
  get_item = λ d key. d key;
  is_utf8 = λ t. true;
}

abbrev python_keeps : KeepsItems python
python_keeps = record { item = λ d key other v. refl }

abbrev width : Property
width = record { name = codes "width"; value = num (pos 320); type = long_type }

abbrev vendor : Property
vendor = record { name = codes "vendor"; value = text (codes "Acme"); type = string_type }

fill_props-Holds_example :
    Returns
      (λ filled.
        Holds python python_keeps
          (codes "width")
          (vendor ∷ width ∷ [])
          none
          (filled (codes "width")))
      (fill_props python (λ key. none) (vendor ∷ width ∷ []))
unfolding py_value
fill_props-Holds_example =
    fill_props-Holds python python_keeps (vendor ∷ width ∷ []) (λ key. none) (codes "width")
      ((py_str (codes "Acme"), refl), ((py_int (pos 320), refl), tt))

abbrev PyObject : Type 0
PyObject = DaCloudObject endless plugins true platform probed insertion_sort

-- An object before its configuration is loaded.
abbrev unset : PyObject
unset = record { cfg = none; cache_id = none; refs = 0; set = false }

load_config-Loads_example :
    Ensures
      (IfSome (Loads endless plugins true platform probed insertion_sort (some (codes "File"))))
      (load_config endless plugins true platform probed insertion_sort 0 [] unset
        (some (codes "da.cfg")))
load_config-Loads_example =
    load_config-Loads endless plugins true platform probed insertion_sort 0 [] unset
      (codes "da.cfg") settings refl refl refl

-- A configuration with the mock provider.
abbrev config : Config endless plugins true platform probed insertion_sort
config = record {
  shead = record { self = 1; array = none; servers = []; dservers = false };
  efp = stderr;
  licence_key = none;
  manual_ranking = false;
  cops = all_of mock;
  provider = mock;
  cache_cfg = tt;
}

-- An object that is set, and whose text has one reference.
abbrev loaded : PyObject
loaded = record { cfg = some config; cache_id = some (codes "mock"); refs = 1; set = true }

dealloc_crashes_example :
    dealloc endless plugins true platform probed insertion_sort 0 3 3 (record loaded { refs = 0 })
    ≡ crashes
unfolding get_cache_id decref
dealloc_crashes_example =
    dealloc_crashes endless plugins true platform probed insertion_sort loaded
      (record loaded { refs = 0 }) 0 3 3 refl (drop (codes "mock") start refl refl)

-- Another property of the name "width".
abbrev wide : Property
wide = record { name = codes "width"; value = num (pos 640); type = long_type }

insert_each-first_named_example :
    lookup (codes "width") (insert_each [] (vendor ∷ width ∷ wide ∷ [])) ≡ some width
unfolding same_text
insert_each-first_named_example =
    insert_each-first_named (vendor ∷ width ∷ wide ∷ []) (codes "width")
