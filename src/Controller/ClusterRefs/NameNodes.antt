-- ===== src/Controller/ClusterRefs/NameNodes.antt =====
-- What the Hive configuration takes from `hdfs-site.xml` for a name service with several name nodes.
use kyuubi_operator.Base.{
  String, ◌<>◌, ◌≡◌, refl, ◌∙◌, ◌≢◌, Option, some, List, [], ◌∷◌, map, arith, contains, ◌==◌,
  if◌then◌else◌,
}
use kyuubi_operator.Base.Dict.{Dict, lookup, index, insert, has_key}
use kyuubi_operator.Base.Dict.Laws.{lookup-insert, lookup-insert_ne, lookup-insert_self}
use kyuubi_operator.Base.Text.{split}
use kyuubi_operator.Base.Text.Laws.{nth-append, ne_of_nth}
use kyuubi_operator.Controller.Names.{dfs_name_spaces_conf_key}
use kyuubi_operator.Controller.ClusterRefs.{
  name_space, name_node_loop, ha_conf, single_conf, hdfs_conf,
}

abbrev pub rpc_key : String → String → String
rpc_key ns v = "dfs.namenode.rpc-address." <> (ns <> ("." <> v))

abbrev pub nodes_key : String → String
nodes_key ns = "dfs.ha.namenodes." <> ns

abbrev pub provider_key : String → String
provider_key ns = "dfs.client.failover.proxy.provider." <> ns

abbrev pub provider : String
provider = "org.apache.hadoop.hdfs.server.namenode.ha.ConfiguredFailoverProxyProvider"

rpc_key-ne : (s : String) → "dfs.namenode.rpc-address." <> s ≢ dfs_name_spaces_conf_key
rpc_key-ne s =
    ne_of_nth 8 {c = 110} {d = 115} (nth-append 8 "dfs.namenode.rpc-address." s refl) refl
      (omega arith)

nodes_key-ne : (s : String) → "dfs.ha.namenodes." <> s ≢ dfs_name_spaces_conf_key
nodes_key-ne s =
    ne_of_nth 4 {c = 104} {d = 110} (nth-append 4 "dfs.ha.namenodes." s refl) refl (omega arith)

provider_key-ne :
    (s : String) → "dfs.client.failover.proxy.provider." <> s ≢ dfs_name_spaces_conf_key
provider_key-ne s =
    ne_of_nth 4 {c = 99} {d = 110} (nth-append 4 "dfs.client.failover.proxy.provider." s refl) refl
      (omega arith)

-- A write to another key leaves the name service.
name_space-insert :
    (k v : String) (conf : Dict)
    → k ≢ dfs_name_spaces_conf_key
    → name_space (insert k v conf) ≡ name_space conf
name_space-insert k v conf h = ground (arith, lookup-insert_ne dfs_name_spaces_conf_key k v conf h)

lookup-name_node_loop :
    (h : Dict) (nodes : List String) (conf : Dict) (ns k : String)
    → name_space conf ≡ ns
    → lookup k (name_node_loop h nodes conf)
      ≡ (if contains (map (rpc_key ns) nodes) k then some (index h k) else lookup k conf)
unfolding name_node_loop
lookup-name_node_loop h [] conf ns k e = refl
lookup-name_node_loop h (v ∷ nodes) conf ns k e =
    let key : String = rpc_key ns v in
    let kept : name_space (insert key (index h key) conf) ≡ ns =
      name_space-insert key (index h key) conf (rpc_key-ne (ns <> ("." <> v))) ∙ e in
    rw e (
      ground (
        arith,
        lookup-name_node_loop h nodes (insert key (index h key) conf) ns k kept,
        lookup-insert k key (index h key) conf,
      ))

-- What `ha_conf` holds at each key.
abbrev pub ha_value : Dict → Dict → String → String → Option String
ha_value h conf ns k =
    if contains (map (rpc_key ns) (split b',' (index h (nodes_key ns)))) k
    then some (index h k)
    else if provider_key ns == k
    then some provider
    else if nodes_key ns == k
    then some (index h (nodes_key ns))
    else lookup k conf

lookup-ha_conf :
    (h conf : Dict) (ns k : String)
    → name_space conf ≡ ns
    → lookup k (ha_conf h conf) ≡ ha_value h conf ns k
unfolding ha_conf
lookup-ha_conf h conf ns k e =
    let conf' : Dict = insert (nodes_key ns) (index h (nodes_key ns)) conf in
    let e' : name_space conf' ≡ ns = name_space-insert _ _ conf (nodes_key-ne ns) ∙ e in
    let conf'' : Dict = insert (provider_key ns) provider conf' in
    let e'' : name_space conf'' ≡ ns = name_space-insert _ _ conf' (provider_key-ne ns) ∙ e' in
    rw e (
      rw e' (
        rw e'' (
          ground (
            arith,
            lookup-name_node_loop h (split b',' (index h (nodes_key ns))) conf'' ns k e'',
            lookup-insert k (provider_key ns) provider conf',
            lookup-insert k (nodes_key ns) (index h (nodes_key ns)) conf,
          ))))

-- What `single_conf` holds at each key.
abbrev pub single_value : Dict → Dict → String → String → Option String
single_value h conf ns k =
    let key = "dfs.namenode.rpc-address." <> ns in
    if key == k then some (index h key) else lookup k conf

lookup-single_conf :
    (h conf : Dict) (ns k : String)
    → name_space conf ≡ ns
    → lookup k (single_conf h conf) ≡ single_value h conf ns k
unfolding single_conf
lookup-single_conf h conf ns k e = rw e (lookup-insert k _ _ conf)

-- If `hdfs-site.xml` names a name service `ns`, the derived configuration holds `ns` under
-- `dfs.nameservices`. If it also lists the name nodes of `ns`, the configuration holds that list, the
-- failover provider, and for each name node of the list (split at commas) its RPC address from
-- `hdfs-site.xml`; if not, it holds the one RPC address of `ns`. All other keys keep their values.
pub lookup-hdfs_conf :
    (h conf : Dict) (ns k : String)
    → lookup dfs_name_spaces_conf_key h ≡ some ns
    → lookup k (hdfs_conf (some h) conf) ≡ (
        let base = insert dfs_name_spaces_conf_key ns conf in
        if has_key (nodes_key ns) h then ha_value h base ns k else single_value h base ns k)
unfolding hdfs_conf
lookup-hdfs_conf h conf ns k e =
    let base : Dict = insert dfs_name_spaces_conf_key ns conf in
    let e' : name_space base ≡ ns =
      ground (arith, lookup-insert_self dfs_name_spaces_conf_key ns conf) in
    ground (arith, e', lookup-ha_conf h base ns k e', lookup-single_conf h base ns k e')
