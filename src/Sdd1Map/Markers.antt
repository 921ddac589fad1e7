-- ===== src/Sdd1Map/Markers.antt =====
-- `find_markers` visits every marker once.
