-- ===== src/Mcp/Clicks/Origin.antt =====
-- Where `click_text` clicks when it is given a region: the scan has moved its matches to the screen
-- already.
