-- ===== src/Controller/ClusterRefs/Hive.antt =====
-- What the Hive configuration holds at each key.
use kyuubi_operator.Base.{String, Option, none, some, [], ◌∷◌, if◌then◌else◌}
use kyuubi_operator.Base.Dict.{Dict, lookup, insert, has_key}
use kyuubi_operator.Controller.ClusterRefs.NameNodes.{nodes_key, ha_value, single_value}

-- The default file system, if `core-site.xml` has one.
abbrev pub core_value : Option Dict → Dict
core_value none = []
core_value (some core_site) = elim (lookup "fs.defaultFS" core_site) [
  | none ↦ []
  | some v ↦ ("fs.defaultFS", v) ∷ []
]

-- What is derived from the HDFS sites.
abbrev pub hdfs_value : Option Dict → Dict → String → Option String
hdfs_value none core k = lookup k core
hdfs_value (some h) core k = elim (lookup "dfs.nameservices" h) [
  | none ↦ lookup k core
  | some ns ↦
      let base = insert "dfs.nameservices" ns core in
      if has_key (nodes_key ns) h then ha_value h base ns k else single_value h base ns k
]
