-- ===== src/Controller/ConfigMaps/Texts.antt =====
-- The text of the Kyuubi configuration depends on the order in which it is printed.
